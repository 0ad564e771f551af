-- ===== src/Sysconf/Names/Inverse.antt =====
-- The table of `system_config_name` (include/pposix/sysconf.hpp) backwards: from a macro of
-- <unistd.h> to its enumerator.
use pposix.Sysconf.Names.{
  SystemConfigName, SystemConfigMacro, sc_aio_listio_max, sc_aio_max, sc_aio_prio_delta_max,
  sc_arg_max, sc_atexit_max, sc_bc_base_max, sc_bc_dim_max, sc_bc_scale_max, sc_bc_string_max,
  sc_child_max, sc_clk_tck, sc_coll_weights_max, sc_delaytimer_max, sc_expr_nest_max,
  sc_host_name_max, sc_iov_max, sc_line_max, sc_login_name_max, sc_ngroups_max, sc_getgr_r_size_max,
  sc_getpw_r_size_max, sc_mq_open_max, sc_mq_prio_max, sc_open_max, sc_advisory_info, sc_barriers,
  sc_asynchronous_io, sc_clock_selection, sc_cputime, sc_fsync, sc_ipv6, sc_job_control,
  sc_mapped_files, sc_memlock, sc_memlock_range, sc_memory_protection, sc_message_passing,
  sc_monotonic_clock, sc_prioritized_io, sc_priority_scheduling, sc_raw_sockets,
  sc_reader_writer_locks, sc_realtime_signals, sc_regexp, sc_saved_ids, sc_semaphores,
  sc_shared_memory_objects, sc_shell, sc_spawn, sc_spin_locks, sc_sporadic_server, sc_ss_repl_max,
  sc_synchronized_io, sc_thread_attr_stackaddr, sc_thread_attr_stacksize, sc_thread_cputime,
  sc_thread_prio_inherit, sc_thread_prio_protect, sc_thread_priority_scheduling,
  sc_thread_process_shared, sc_thread_robust_prio_inherit, sc_thread_robust_prio_protect,
  sc_thread_safe_functions, sc_thread_sporadic_server, sc_threads, sc_timeouts, sc_timers, sc_trace,
  sc_trace_event_filter, sc_trace_event_name_max, sc_trace_inherit, sc_trace_log, sc_trace_name_max,
  sc_trace_sys_max, sc_trace_user_event_max, sc_typed_memory_objects, sc_version, sc_v7_ilp32_off32,
  sc_v7_ilp32_offbig, sc_v7_lp64_off64, sc_v7_lpbig_offbig, sc_v6_ilp32_off32, sc_v6_ilp32_offbig,
  sc_v6_lp64_off64, sc_v6_lpbig_offbig, sc_2_c_bind, sc_2_c_dev, sc_2_char_term, sc_2_fort_dev,
  sc_2_fort_run, sc_2_localedef, sc_2_pbs, sc_2_pbs_accounting, sc_2_pbs_checkpoint,
  sc_2_pbs_locate, sc_2_pbs_message, sc_2_pbs_track, sc_2_sw_dev, sc_2_upe, sc_2_version,
  sc_page_size, sc_pagesize, sc_thread_destructor_iterations, sc_thread_keys_max,
  sc_thread_stack_min, sc_thread_threads_max, sc_re_dup_max, sc_rtsig_max, sc_sem_nsems_max,
  sc_sem_value_max, sc_sigqueue_max, sc_stream_max, sc_symloop_max, sc_timer_max, sc_tty_name_max,
  sc_tzname_max, sc_xopen_crypt, sc_xopen_enh_i18n, sc_xopen_realtime, sc_xopen_realtime_threads,
  sc_xopen_shm, sc_xopen_streams, sc_xopen_unix, sc_xopen_version, aio_listio_max, aio_max,
  aio_prio_delta_max, arg_max, atexit_max, bc_base_max, bc_dim_max, bc_scale_max, bc_string_max,
  hild_max, lk_tck, oll_weights_max, delaytimer_max, expr_nest_max, host_name_max, iov_max,
  line_max, login_name_max, ngroups_max, getgr_r_size_max, getpw_r_size_max, mq_open_max,
  mq_prio_max, open_max, advisory_info, barriers, asynchronous_io, lock_selection, putime, fsync,
  ipv6, job_control, mapped_files, memlock, memlock_range, memory_protection, message_passing,
  monotonic_clock, prioritized_io, priority_scheduling, raw_sockets, reader_writer_locks,
  realtime_signals, regexp, saved_ids, semaphores, shared_memory_objects, shell, spawn, spin_locks,
  sporadic_server, repl_max, ynchronized_io, thread_attr_stackaddr, thread_attr_stacksize,
  thread_cputime, thread_prio_inherit, thread_prio_protect, thread_priority_scheduling,
  thread_process_shared, thread_robust_prio_inherit, thread_robust_prio_protect,
  thread_safe_functions, thread_sporadic_server, threads, timeouts, timers, trace,
  trace_event_filter, trace_event_name_max, trace_inherit, trace_log, trace_name_max, trace_sys_max,
  trace_user_event_max, typed_memory_objects, version, v7_ilp32_off32, v7_ilp32_offbig,
  v7_lp64_off64, v7_lpbig_offbig, v6_ilp32_off32, v6_ilp32_offbig, v6_lp64_off64, v6_lpbig_offbig,
  c_bind_2, c_dev_2, char_term_2, fort_dev_2, fort_run_2, localedef_2, pbs_2, pbs_accounting_2,
  pbs_checkpoint_2, pbs_locate_2, pbs_message_2, pbs_track_2, sw_dev_2, upe_2, version_2, page_size,
  pagesize, thread_destructor_iterations, thread_keys_max, thread_stack_min, thread_threads_max,
  re_dup_max, rtsig_max, em_nsems_max, em_value_max, igqueue_max, tream_max, ymloop_max, timer_max,
  tty_name_max, tzname_max, xopen_crypt, xopen_enh_i18n, xopen_realtime, xopen_realtime_threads,
  xopen_shm, xopen_streams, xopen_unix, xopen_version,
}

-- The enumerator that a macro belongs to.
unfoldable pub system_config_name : SystemConfigMacro → SystemConfigName
system_config_name sc_aio_listio_max = aio_listio_max
system_config_name sc_aio_max = aio_max
system_config_name sc_aio_prio_delta_max = aio_prio_delta_max
system_config_name sc_arg_max = arg_max
system_config_name sc_atexit_max = atexit_max
system_config_name sc_bc_base_max = bc_base_max
system_config_name sc_bc_dim_max = bc_dim_max
system_config_name sc_bc_scale_max = bc_scale_max
system_config_name sc_bc_string_max = bc_string_max
system_config_name sc_child_max = hild_max
system_config_name sc_clk_tck = lk_tck
system_config_name sc_coll_weights_max = oll_weights_max
system_config_name sc_delaytimer_max = delaytimer_max
system_config_name sc_expr_nest_max = expr_nest_max
system_config_name sc_host_name_max = host_name_max
system_config_name sc_iov_max = iov_max
system_config_name sc_line_max = line_max
system_config_name sc_login_name_max = login_name_max
system_config_name sc_ngroups_max = ngroups_max
system_config_name sc_getgr_r_size_max = getgr_r_size_max
system_config_name sc_getpw_r_size_max = getpw_r_size_max
system_config_name sc_mq_open_max = mq_open_max
system_config_name sc_mq_prio_max = mq_prio_max
system_config_name sc_open_max = open_max
system_config_name sc_advisory_info = advisory_info
system_config_name sc_barriers = barriers
system_config_name sc_asynchronous_io = asynchronous_io
system_config_name sc_clock_selection = lock_selection
system_config_name sc_cputime = putime
system_config_name sc_fsync = fsync
system_config_name sc_ipv6 = ipv6
system_config_name sc_job_control = job_control
system_config_name sc_mapped_files = mapped_files
system_config_name sc_memlock = memlock
system_config_name sc_memlock_range = memlock_range
system_config_name sc_memory_protection = memory_protection
system_config_name sc_message_passing = message_passing
system_config_name sc_monotonic_clock = monotonic_clock
system_config_name sc_prioritized_io = prioritized_io
system_config_name sc_priority_scheduling = priority_scheduling
system_config_name sc_raw_sockets = raw_sockets
system_config_name sc_reader_writer_locks = reader_writer_locks
system_config_name sc_realtime_signals = realtime_signals
system_config_name sc_regexp = regexp
system_config_name sc_saved_ids = saved_ids
system_config_name sc_semaphores = semaphores
system_config_name sc_shared_memory_objects = shared_memory_objects
system_config_name sc_shell = shell
system_config_name sc_spawn = spawn
system_config_name sc_spin_locks = spin_locks
system_config_name sc_sporadic_server = sporadic_server
system_config_name sc_ss_repl_max = repl_max
system_config_name sc_synchronized_io = ynchronized_io
system_config_name sc_thread_attr_stackaddr = thread_attr_stackaddr
system_config_name sc_thread_attr_stacksize = thread_attr_stacksize
system_config_name sc_thread_cputime = thread_cputime
system_config_name sc_thread_prio_inherit = thread_prio_inherit
system_config_name sc_thread_prio_protect = thread_prio_protect
system_config_name sc_thread_priority_scheduling = thread_priority_scheduling
system_config_name sc_thread_process_shared = thread_process_shared
system_config_name sc_thread_robust_prio_inherit = thread_robust_prio_inherit
system_config_name sc_thread_robust_prio_protect = thread_robust_prio_protect
system_config_name sc_thread_safe_functions = thread_safe_functions
system_config_name sc_thread_sporadic_server = thread_sporadic_server
system_config_name sc_threads = threads
system_config_name sc_timeouts = timeouts
system_config_name sc_timers = timers
system_config_name sc_trace = trace
system_config_name sc_trace_event_filter = trace_event_filter
system_config_name sc_trace_event_name_max = trace_event_name_max
system_config_name sc_trace_inherit = trace_inherit
system_config_name sc_trace_log = trace_log
system_config_name sc_trace_name_max = trace_name_max
system_config_name sc_trace_sys_max = trace_sys_max
system_config_name sc_trace_user_event_max = trace_user_event_max
system_config_name sc_typed_memory_objects = typed_memory_objects
system_config_name sc_version = version
system_config_name sc_v7_ilp32_off32 = v7_ilp32_off32
system_config_name sc_v7_ilp32_offbig = v7_ilp32_offbig
system_config_name sc_v7_lp64_off64 = v7_lp64_off64
system_config_name sc_v7_lpbig_offbig = v7_lpbig_offbig
system_config_name sc_v6_ilp32_off32 = v6_ilp32_off32
system_config_name sc_v6_ilp32_offbig = v6_ilp32_offbig
system_config_name sc_v6_lp64_off64 = v6_lp64_off64
system_config_name sc_v6_lpbig_offbig = v6_lpbig_offbig
system_config_name sc_2_c_bind = c_bind_2
system_config_name sc_2_c_dev = c_dev_2
system_config_name sc_2_char_term = char_term_2
system_config_name sc_2_fort_dev = fort_dev_2
system_config_name sc_2_fort_run = fort_run_2
system_config_name sc_2_localedef = localedef_2
system_config_name sc_2_pbs = pbs_2
system_config_name sc_2_pbs_accounting = pbs_accounting_2
system_config_name sc_2_pbs_checkpoint = pbs_checkpoint_2
system_config_name sc_2_pbs_locate = pbs_locate_2
system_config_name sc_2_pbs_message = pbs_message_2
system_config_name sc_2_pbs_track = pbs_track_2
system_config_name sc_2_sw_dev = sw_dev_2
system_config_name sc_2_upe = upe_2
system_config_name sc_2_version = version_2
system_config_name sc_page_size = page_size
system_config_name sc_pagesize = pagesize
system_config_name sc_thread_destructor_iterations = thread_destructor_iterations
system_config_name sc_thread_keys_max = thread_keys_max
system_config_name sc_thread_stack_min = thread_stack_min
system_config_name sc_thread_threads_max = thread_threads_max
system_config_name sc_re_dup_max = re_dup_max
system_config_name sc_rtsig_max = rtsig_max
system_config_name sc_sem_nsems_max = em_nsems_max
system_config_name sc_sem_value_max = em_value_max
system_config_name sc_sigqueue_max = igqueue_max
system_config_name sc_stream_max = tream_max
system_config_name sc_symloop_max = ymloop_max
system_config_name sc_timer_max = timer_max
system_config_name sc_tty_name_max = tty_name_max
system_config_name sc_tzname_max = tzname_max
system_config_name sc_xopen_crypt = xopen_crypt
system_config_name sc_xopen_enh_i18n = xopen_enh_i18n
system_config_name sc_xopen_realtime = xopen_realtime
system_config_name sc_xopen_realtime_threads = xopen_realtime_threads
system_config_name sc_xopen_shm = xopen_shm
system_config_name sc_xopen_streams = xopen_streams
system_config_name sc_xopen_unix = xopen_unix
system_config_name sc_xopen_version = xopen_version
