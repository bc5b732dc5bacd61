-- ===== src/Errors.antt =====
-- errors.go: the errors that the library names, and one constructor for each message that the
-- modelled code builds in place with `fmt.Errorf` or `errors.New`.

pub data Error : Type 0 where
  -- The variables of errors.go.
  invalid_version invalid_msg_type session_shutdown streams_exhausted timeout stream_closed : Error
  connection_write_timeout end_of_stream session_unhealthy not_enough_data no_more_buffer : Error
  share_memory_had_not_left_space stream_callback_had_existed os_non_supported : Error
  arch_non_supported hot_restart_in_progress in_handshake_stage file_name_too_long : Error
  queue_full queue_empty : Error
  -- `queue was existed`, `the memory size of queue should be a multiple of 16`.
  queue_existed queue_size_not_aligned : Error
  -- An error that the operating system returned, passed on.
  system eof : Error
  -- buffer_manager.go: `mem's size is at least`, `cannot be 0`, `slice bounds out of range`,
  -- `the sum of all SizePercentPair's percent must be equals 100`, `could not mappingBufferManager`,
  -- `mappingFreeBufferList failed`, `broken share memory`.
  mem_too_small zero_buffer out_of_range percent_sum bad_manager bad_list broken_memory : Error
  -- config.go, in the order of its checks.
  small_share_memory no_slice_sizes slice_too_large slice_not_aligned percent_not_100 : Error
  queue_cap_not_aligned empty_path : Error
  -- protocol_manager.go and protocol_initializer.go.
  unsupported_version unexpected_event unknown_memory_type : Error
  -- stream.go: `stream had unread data`, `stream had unread pending data`.
  unread_data unread_pending : Error
  -- session_manager.go: `stream pool is full`.
  pool_full : Error
