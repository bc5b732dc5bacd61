-- ===== src/Events/Frames.antt =====
-- Bytes that arrive later do not change a frame that the handlers of protocol_manager.go could
-- already take.
use shmipc_go.Prelude.{
  ℕ, ◌+◌, ◌-◌, ◌≤◌, ◌≡◌, ◌≢◌, List, ◌++◌, arith, take, drop, length, take-append_le, drop-append_le,
  length-append, length-drop,
}
use shmipc_go.Protocol.{header_size, event_length}
use shmipc_go.Events.{
  Event, Frame, event, stop, frame, fallback_frame, fallback_payload, number_frame, parse, id_len,
  epoch_id_len, stream_close, hot_restart, hot_restart_ack,
}

-- A frame that is not a stop is what the handler also makes of a longer buffer, and an event takes
-- a header at least and no more than there is.
pub record Settled (long short : Frame) (room : ℕ) : Type 0 where
  pub same : short ≢ stop → long ≡ short
  pub taken : (n : ℕ) (e : Event) → short ≡ event n e → (header_size ≤ n) × (n ≤ header_size + room)

module _ (ys : List ℕ) where
  number_frame-Settled :
      (n : ℕ) (make : ℕ → Event) (buf : List ℕ)
      → Settled (number_frame n make (buf ++ ys)) (number_frame n make buf) (length buf)
  unfolding number_frame
  number_frame-Settled n make buf = record {
    same = λ ns. ground (arith, length-append buf ys, take-append_le n buf ys);
    taken = λ k e h. ground arith;
  }

  fallback_payload-append :
      (n : ℕ) (buf : List ℕ)
      → 8 ≤ n
      → n ≤ length buf
      → fallback_payload n (buf ++ ys) ≡ fallback_payload n buf
  unfolding fallback_payload
  fallback_payload-append n buf p h = rw (
    take-append_le 4 buf ys (omega arith),
    take-append_le n buf ys h,
    drop-append_le 4 buf ys (omega arith),
    take-append_le 4 (drop 4 buf) ys (omega (arith, length-drop 4 buf)),
  )

  fallback_frame-Settled :
      (h buf : List ℕ) → Settled (fallback_frame h (buf ++ ys)) (fallback_frame h buf) (length buf)
  unfolding fallback_frame
  fallback_frame-Settled h buf = record {
    same = λ ns.
        ground (arith, length-append buf ys, fallback_payload-append (event_length h - 8) buf);
    taken = λ k e eq. ground arith;
  }

  frame-Settled : (h buf : List ℕ) → Settled (frame h (buf ++ ys)) (frame h buf) (length buf)
  unfolding frame
  frame-Settled h buf = record {
    same = λ ns. ground (
      arith,
      (number_frame-Settled id_len stream_close buf).same,
      (fallback_frame-Settled h buf).same,
      (number_frame-Settled epoch_id_len hot_restart buf).same,
      (number_frame-Settled epoch_id_len hot_restart_ack buf).same,
    );
    taken = λ k e eq. ground (
      arith,
      (number_frame-Settled id_len stream_close buf).taken k e,
      (fallback_frame-Settled h buf).taken k e,
      (number_frame-Settled epoch_id_len hot_restart buf).taken k e,
      (number_frame-Settled epoch_id_len hot_restart_ack buf).taken k e,
    );
  }

  -- For the bytes with their header in front.
  pub parse-Settled :
      (xs : List ℕ)
      → header_size ≤ length xs
      → Settled (parse (xs ++ ys)) (parse xs) (length xs - header_size)
  unfolding parse
  parse-Settled xs h =
      let t = take-append_le 8 xs ys h in
      let d = drop-append_le 8 xs ys h in
      let s = frame-Settled (take 8 xs) (drop 8 xs) in
      let l = length-drop 8 xs in
      record {
        same = λ ns. ground (arith, t, d, s.same);
        taken = λ k e eq. ground (arith, l, s.taken k e);
      }
