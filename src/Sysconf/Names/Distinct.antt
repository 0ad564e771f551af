-- ===== src/Sysconf/Names/Distinct.antt =====
-- The enumerators of include/pposix/sysconf.hpp stand for macros of their own.
use pposix.Base.{◌≡◌, refl}
use pposix.Sysconf.Names.{
  SystemConfigName, system_config_macro, aio_listio_max, aio_max, aio_prio_delta_max, arg_max,
  atexit_max, bc_base_max, bc_dim_max, bc_scale_max, bc_string_max, hild_max, lk_tck,
  oll_weights_max, delaytimer_max, expr_nest_max, host_name_max, iov_max, line_max, login_name_max,
  ngroups_max, getgr_r_size_max, getpw_r_size_max, mq_open_max, mq_prio_max, open_max,
  advisory_info, barriers, asynchronous_io, lock_selection, putime, fsync, ipv6, job_control,
  mapped_files, memlock, memlock_range, memory_protection, message_passing, monotonic_clock,
  prioritized_io, priority_scheduling, raw_sockets, reader_writer_locks, realtime_signals, regexp,
  saved_ids, semaphores, shared_memory_objects, shell, spawn, spin_locks, sporadic_server, repl_max,
  ynchronized_io, thread_attr_stackaddr, thread_attr_stacksize, thread_cputime, thread_prio_inherit,
  thread_prio_protect, thread_priority_scheduling, thread_process_shared,
  thread_robust_prio_inherit, thread_robust_prio_protect, thread_safe_functions,
  thread_sporadic_server, threads, timeouts, timers, trace, trace_event_filter,
  trace_event_name_max, trace_inherit, trace_log, trace_name_max, trace_sys_max,
  trace_user_event_max, typed_memory_objects, version, v7_ilp32_off32, v7_ilp32_offbig,
  v7_lp64_off64, v7_lpbig_offbig, v6_ilp32_off32, v6_ilp32_offbig, v6_lp64_off64, v6_lpbig_offbig,
  c_bind_2, c_dev_2, char_term_2, fort_dev_2, fort_run_2, localedef_2, pbs_2, pbs_accounting_2,
  pbs_checkpoint_2, pbs_locate_2, pbs_message_2, pbs_track_2, sw_dev_2, upe_2, version_2, page_size,
  pagesize, thread_destructor_iterations, thread_keys_max, thread_stack_min, thread_threads_max,
  re_dup_max, rtsig_max, em_nsems_max, em_value_max, igqueue_max, tream_max, ymloop_max, timer_max,
  tty_name_max, tzname_max, xopen_crypt, xopen_enh_i18n, xopen_realtime, xopen_realtime_threads,
  xopen_shm, xopen_streams, xopen_unix, xopen_version,
}
use pposix.Sysconf.Names.Inverse.{system_config_name}

-- Every enumerator of `system_config_name` is found again from the macro that it stands for, so no
-- two stand for the same macro.
pub system_config_name-macro :
    (n : SystemConfigName) → system_config_name (system_config_macro n) ≡ n
unfolding system_config_name system_config_macro
system_config_name-macro aio_listio_max = refl
system_config_name-macro aio_max = refl
system_config_name-macro aio_prio_delta_max = refl
system_config_name-macro arg_max = refl
system_config_name-macro atexit_max = refl
system_config_name-macro bc_base_max = refl
system_config_name-macro bc_dim_max = refl
system_config_name-macro bc_scale_max = refl
system_config_name-macro bc_string_max = refl
system_config_name-macro hild_max = refl
system_config_name-macro lk_tck = refl
system_config_name-macro oll_weights_max = refl
system_config_name-macro delaytimer_max = refl
system_config_name-macro expr_nest_max = refl
system_config_name-macro host_name_max = refl
system_config_name-macro iov_max = refl
system_config_name-macro line_max = refl
system_config_name-macro login_name_max = refl
system_config_name-macro ngroups_max = refl
system_config_name-macro getgr_r_size_max = refl
system_config_name-macro getpw_r_size_max = refl
system_config_name-macro mq_open_max = refl
system_config_name-macro mq_prio_max = refl
system_config_name-macro open_max = refl
system_config_name-macro advisory_info = refl
system_config_name-macro barriers = refl
system_config_name-macro asynchronous_io = refl
system_config_name-macro lock_selection = refl
system_config_name-macro putime = refl
system_config_name-macro fsync = refl
system_config_name-macro ipv6 = refl
system_config_name-macro job_control = refl
system_config_name-macro mapped_files = refl
system_config_name-macro memlock = refl
system_config_name-macro memlock_range = refl
system_config_name-macro memory_protection = refl
system_config_name-macro message_passing = refl
system_config_name-macro monotonic_clock = refl
system_config_name-macro prioritized_io = refl
system_config_name-macro priority_scheduling = refl
system_config_name-macro raw_sockets = refl
system_config_name-macro reader_writer_locks = refl
system_config_name-macro realtime_signals = refl
system_config_name-macro regexp = refl
system_config_name-macro saved_ids = refl
system_config_name-macro semaphores = refl
system_config_name-macro shared_memory_objects = refl
system_config_name-macro shell = refl
system_config_name-macro spawn = refl
system_config_name-macro spin_locks = refl
system_config_name-macro sporadic_server = refl
system_config_name-macro repl_max = refl
system_config_name-macro ynchronized_io = refl
system_config_name-macro thread_attr_stackaddr = refl
system_config_name-macro thread_attr_stacksize = refl
system_config_name-macro thread_cputime = refl
system_config_name-macro thread_prio_inherit = refl
system_config_name-macro thread_prio_protect = refl
system_config_name-macro thread_priority_scheduling = refl
system_config_name-macro thread_process_shared = refl
system_config_name-macro thread_robust_prio_inherit = refl
system_config_name-macro thread_robust_prio_protect = refl
system_config_name-macro thread_safe_functions = refl
system_config_name-macro thread_sporadic_server = refl
system_config_name-macro threads = refl
system_config_name-macro timeouts = refl
system_config_name-macro timers = refl
system_config_name-macro trace = refl
system_config_name-macro trace_event_filter = refl
system_config_name-macro trace_event_name_max = refl
system_config_name-macro trace_inherit = refl
system_config_name-macro trace_log = refl
system_config_name-macro trace_name_max = refl
system_config_name-macro trace_sys_max = refl
system_config_name-macro trace_user_event_max = refl
system_config_name-macro typed_memory_objects = refl
system_config_name-macro version = refl
system_config_name-macro v7_ilp32_off32 = refl
system_config_name-macro v7_ilp32_offbig = refl
system_config_name-macro v7_lp64_off64 = refl
system_config_name-macro v7_lpbig_offbig = refl
system_config_name-macro v6_ilp32_off32 = refl
system_config_name-macro v6_ilp32_offbig = refl
system_config_name-macro v6_lp64_off64 = refl
system_config_name-macro v6_lpbig_offbig = refl
system_config_name-macro c_bind_2 = refl
system_config_name-macro c_dev_2 = refl
system_config_name-macro char_term_2 = refl
system_config_name-macro fort_dev_2 = refl
system_config_name-macro fort_run_2 = refl
system_config_name-macro localedef_2 = refl
system_config_name-macro pbs_2 = refl
system_config_name-macro pbs_accounting_2 = refl
system_config_name-macro pbs_checkpoint_2 = refl
system_config_name-macro pbs_locate_2 = refl
system_config_name-macro pbs_message_2 = refl
system_config_name-macro pbs_track_2 = refl
system_config_name-macro sw_dev_2 = refl
system_config_name-macro upe_2 = refl
system_config_name-macro version_2 = refl
system_config_name-macro page_size = refl
system_config_name-macro pagesize = refl
system_config_name-macro thread_destructor_iterations = refl
system_config_name-macro thread_keys_max = refl
system_config_name-macro thread_stack_min = refl
system_config_name-macro thread_threads_max = refl
system_config_name-macro re_dup_max = refl
system_config_name-macro rtsig_max = refl
system_config_name-macro em_nsems_max = refl
system_config_name-macro em_value_max = refl
system_config_name-macro igqueue_max = refl
system_config_name-macro tream_max = refl
system_config_name-macro ymloop_max = refl
system_config_name-macro timer_max = refl
system_config_name-macro tty_name_max = refl
system_config_name-macro tzname_max = refl
system_config_name-macro xopen_crypt = refl
system_config_name-macro xopen_enh_i18n = refl
system_config_name-macro xopen_realtime = refl
system_config_name-macro xopen_realtime_threads = refl
system_config_name-macro xopen_shm = refl
system_config_name-macro xopen_streams = refl
system_config_name-macro xopen_unix = refl
system_config_name-macro xopen_version = refl
