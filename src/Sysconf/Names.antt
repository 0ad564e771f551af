-- ===== src/Sysconf/Names.antt =====
-- `system_config_name` of include/pposix/sysconf.hpp, with the enumerators of all platforms.
pub mod Inverse
pub mod Distinct

-- The enumerators of `system_config_name`.
pub data SystemConfigName : Type 0 where
  aio_listio_max aio_max aio_prio_delta_max arg_max atexit_max bc_base_max : SystemConfigName
  bc_dim_max bc_scale_max bc_string_max hild_max lk_tck oll_weights_max : SystemConfigName
  delaytimer_max expr_nest_max host_name_max iov_max line_max login_name_max : SystemConfigName
  ngroups_max getgr_r_size_max getpw_r_size_max mq_open_max mq_prio_max : SystemConfigName
  open_max advisory_info barriers asynchronous_io lock_selection putime fsync : SystemConfigName
  ipv6 job_control mapped_files memlock memlock_range memory_protection : SystemConfigName
  message_passing monotonic_clock prioritized_io priority_scheduling : SystemConfigName
  raw_sockets reader_writer_locks realtime_signals regexp saved_ids semaphores : SystemConfigName
  shared_memory_objects shell spawn spin_locks sporadic_server repl_max : SystemConfigName
  ynchronized_io thread_attr_stackaddr thread_attr_stacksize thread_cputime : SystemConfigName
  thread_prio_inherit thread_prio_protect thread_priority_scheduling : SystemConfigName
  thread_process_shared thread_robust_prio_inherit thread_robust_prio_protect : SystemConfigName
  thread_safe_functions thread_sporadic_server threads timeouts timers trace : SystemConfigName
  trace_event_filter trace_event_name_max trace_inherit trace_log : SystemConfigName
  trace_name_max trace_sys_max trace_user_event_max typed_memory_objects : SystemConfigName
  version v7_ilp32_off32 v7_ilp32_offbig v7_lp64_off64 v7_lpbig_offbig : SystemConfigName
  v6_ilp32_off32 v6_ilp32_offbig v6_lp64_off64 v6_lpbig_offbig c_bind_2 : SystemConfigName
  c_dev_2 char_term_2 fort_dev_2 fort_run_2 localedef_2 pbs_2 pbs_accounting_2 : SystemConfigName
  pbs_checkpoint_2 pbs_locate_2 pbs_message_2 pbs_track_2 sw_dev_2 upe_2 : SystemConfigName
  version_2 page_size pagesize thread_destructor_iterations thread_keys_max : SystemConfigName
  thread_stack_min thread_threads_max re_dup_max rtsig_max em_nsems_max : SystemConfigName
  em_value_max igqueue_max tream_max ymloop_max timer_max tty_name_max : SystemConfigName
  tzname_max xopen_crypt xopen_enh_i18n xopen_realtime xopen_realtime_threads : SystemConfigName
  xopen_shm xopen_streams xopen_unix xopen_version : SystemConfigName

-- The macros of <unistd.h> that give them their values.
pub data SystemConfigMacro : Type 0 where
  sc_aio_listio_max sc_aio_max sc_aio_prio_delta_max sc_arg_max sc_atexit_max : SystemConfigMacro
  sc_bc_base_max sc_bc_dim_max sc_bc_scale_max sc_bc_string_max sc_child_max : SystemConfigMacro
  sc_clk_tck sc_coll_weights_max sc_delaytimer_max sc_expr_nest_max : SystemConfigMacro
  sc_host_name_max sc_iov_max sc_line_max sc_login_name_max sc_ngroups_max : SystemConfigMacro
  sc_getgr_r_size_max sc_getpw_r_size_max sc_mq_open_max sc_mq_prio_max : SystemConfigMacro
  sc_open_max sc_advisory_info sc_barriers sc_asynchronous_io : SystemConfigMacro
  sc_clock_selection sc_cputime sc_fsync sc_ipv6 sc_job_control : SystemConfigMacro
  sc_mapped_files sc_memlock sc_memlock_range sc_memory_protection : SystemConfigMacro
  sc_message_passing sc_monotonic_clock sc_prioritized_io : SystemConfigMacro
  sc_priority_scheduling sc_raw_sockets sc_reader_writer_locks : SystemConfigMacro
  sc_realtime_signals sc_regexp sc_saved_ids sc_semaphores : SystemConfigMacro
  sc_shared_memory_objects sc_shell sc_spawn sc_spin_locks sc_sporadic_server : SystemConfigMacro
  sc_ss_repl_max sc_synchronized_io sc_thread_attr_stackaddr : SystemConfigMacro
  sc_thread_attr_stacksize sc_thread_cputime sc_thread_prio_inherit : SystemConfigMacro
  sc_thread_prio_protect sc_thread_priority_scheduling : SystemConfigMacro
  sc_thread_process_shared sc_thread_robust_prio_inherit : SystemConfigMacro
  sc_thread_robust_prio_protect sc_thread_safe_functions : SystemConfigMacro
  sc_thread_sporadic_server sc_threads sc_timeouts sc_timers sc_trace : SystemConfigMacro
  sc_trace_event_filter sc_trace_event_name_max sc_trace_inherit sc_trace_log : SystemConfigMacro
  sc_trace_name_max sc_trace_sys_max sc_trace_user_event_max : SystemConfigMacro
  sc_typed_memory_objects sc_version sc_v7_ilp32_off32 sc_v7_ilp32_offbig : SystemConfigMacro
  sc_v7_lp64_off64 sc_v7_lpbig_offbig sc_v6_ilp32_off32 sc_v6_ilp32_offbig : SystemConfigMacro
  sc_v6_lp64_off64 sc_v6_lpbig_offbig sc_2_c_bind sc_2_c_dev sc_2_char_term : SystemConfigMacro
  sc_2_fort_dev sc_2_fort_run sc_2_localedef sc_2_pbs sc_2_pbs_accounting : SystemConfigMacro
  sc_2_pbs_checkpoint sc_2_pbs_locate sc_2_pbs_message sc_2_pbs_track : SystemConfigMacro
  sc_2_sw_dev sc_2_upe sc_2_version sc_page_size sc_pagesize : SystemConfigMacro
  sc_thread_destructor_iterations sc_thread_keys_max sc_thread_stack_min : SystemConfigMacro
  sc_thread_threads_max sc_re_dup_max sc_rtsig_max sc_sem_nsems_max : SystemConfigMacro
  sc_sem_value_max sc_sigqueue_max sc_stream_max sc_symloop_max sc_timer_max : SystemConfigMacro
  sc_tty_name_max sc_tzname_max sc_xopen_crypt sc_xopen_enh_i18n : SystemConfigMacro
  sc_xopen_realtime sc_xopen_realtime_threads sc_xopen_shm sc_xopen_streams : SystemConfigMacro
  sc_xopen_unix sc_xopen_version : SystemConfigMacro

unfoldable pub system_config_macro : SystemConfigName → SystemConfigMacro
system_config_macro aio_listio_max = sc_aio_listio_max
system_config_macro aio_max = sc_aio_max
system_config_macro aio_prio_delta_max = sc_aio_prio_delta_max
system_config_macro arg_max = sc_arg_max
system_config_macro atexit_max = sc_atexit_max
system_config_macro bc_base_max = sc_bc_base_max
system_config_macro bc_dim_max = sc_bc_dim_max
system_config_macro bc_scale_max = sc_bc_scale_max
system_config_macro bc_string_max = sc_bc_string_max
system_config_macro hild_max = sc_child_max
system_config_macro lk_tck = sc_clk_tck
system_config_macro oll_weights_max = sc_coll_weights_max
system_config_macro delaytimer_max = sc_delaytimer_max
system_config_macro expr_nest_max = sc_expr_nest_max
system_config_macro host_name_max = sc_host_name_max
system_config_macro iov_max = sc_iov_max
system_config_macro line_max = sc_line_max
system_config_macro login_name_max = sc_login_name_max
system_config_macro ngroups_max = sc_ngroups_max
system_config_macro getgr_r_size_max = sc_getgr_r_size_max
system_config_macro getpw_r_size_max = sc_getpw_r_size_max
system_config_macro mq_open_max = sc_mq_open_max
system_config_macro mq_prio_max = sc_mq_prio_max
system_config_macro open_max = sc_open_max
system_config_macro advisory_info = sc_advisory_info
system_config_macro barriers = sc_barriers
system_config_macro asynchronous_io = sc_asynchronous_io
system_config_macro lock_selection = sc_clock_selection
system_config_macro putime = sc_cputime
system_config_macro fsync = sc_fsync
system_config_macro ipv6 = sc_ipv6
system_config_macro job_control = sc_job_control
system_config_macro mapped_files = sc_mapped_files
system_config_macro memlock = sc_memlock
system_config_macro memlock_range = sc_memlock_range
system_config_macro memory_protection = sc_memory_protection
system_config_macro message_passing = sc_message_passing
system_config_macro monotonic_clock = sc_monotonic_clock
system_config_macro prioritized_io = sc_prioritized_io
system_config_macro priority_scheduling = sc_priority_scheduling
system_config_macro raw_sockets = sc_raw_sockets
system_config_macro reader_writer_locks = sc_reader_writer_locks
system_config_macro realtime_signals = sc_realtime_signals
system_config_macro regexp = sc_regexp
system_config_macro saved_ids = sc_saved_ids
system_config_macro semaphores = sc_semaphores
system_config_macro shared_memory_objects = sc_shared_memory_objects
system_config_macro shell = sc_shell
system_config_macro spawn = sc_spawn
system_config_macro spin_locks = sc_spin_locks
system_config_macro sporadic_server = sc_sporadic_server
system_config_macro repl_max = sc_ss_repl_max
system_config_macro ynchronized_io = sc_synchronized_io
system_config_macro thread_attr_stackaddr = sc_thread_attr_stackaddr
system_config_macro thread_attr_stacksize = sc_thread_attr_stacksize
system_config_macro thread_cputime = sc_thread_cputime
system_config_macro thread_prio_inherit = sc_thread_prio_inherit
system_config_macro thread_prio_protect = sc_thread_prio_protect
system_config_macro thread_priority_scheduling = sc_thread_priority_scheduling
system_config_macro thread_process_shared = sc_thread_process_shared
system_config_macro thread_robust_prio_inherit = sc_thread_robust_prio_inherit
system_config_macro thread_robust_prio_protect = sc_thread_robust_prio_protect
system_config_macro thread_safe_functions = sc_thread_safe_functions
system_config_macro thread_sporadic_server = sc_thread_sporadic_server
system_config_macro threads = sc_threads
system_config_macro timeouts = sc_timeouts
system_config_macro timers = sc_timers
system_config_macro trace = sc_trace
system_config_macro trace_event_filter = sc_trace_event_filter
system_config_macro trace_event_name_max = sc_trace_event_name_max
system_config_macro trace_inherit = sc_trace_inherit
system_config_macro trace_log = sc_trace_log
system_config_macro trace_name_max = sc_trace_name_max
system_config_macro trace_sys_max = sc_trace_sys_max
system_config_macro trace_user_event_max = sc_trace_user_event_max
system_config_macro typed_memory_objects = sc_typed_memory_objects
system_config_macro version = sc_version
system_config_macro v7_ilp32_off32 = sc_v7_ilp32_off32
system_config_macro v7_ilp32_offbig = sc_v7_ilp32_offbig
system_config_macro v7_lp64_off64 = sc_v7_lp64_off64
system_config_macro v7_lpbig_offbig = sc_v7_lpbig_offbig
system_config_macro v6_ilp32_off32 = sc_v6_ilp32_off32
system_config_macro v6_ilp32_offbig = sc_v6_ilp32_offbig
system_config_macro v6_lp64_off64 = sc_v6_lp64_off64
system_config_macro v6_lpbig_offbig = sc_v6_lpbig_offbig
system_config_macro c_bind_2 = sc_2_c_bind
system_config_macro c_dev_2 = sc_2_c_dev
system_config_macro char_term_2 = sc_2_char_term
system_config_macro fort_dev_2 = sc_2_fort_dev
system_config_macro fort_run_2 = sc_2_fort_run
system_config_macro localedef_2 = sc_2_localedef
system_config_macro pbs_2 = sc_2_pbs
system_config_macro pbs_accounting_2 = sc_2_pbs_accounting
system_config_macro pbs_checkpoint_2 = sc_2_pbs_checkpoint
system_config_macro pbs_locate_2 = sc_2_pbs_locate
system_config_macro pbs_message_2 = sc_2_pbs_message
system_config_macro pbs_track_2 = sc_2_pbs_track
system_config_macro sw_dev_2 = sc_2_sw_dev
system_config_macro upe_2 = sc_2_upe
system_config_macro version_2 = sc_2_version
system_config_macro page_size = sc_page_size
system_config_macro pagesize = sc_pagesize
system_config_macro thread_destructor_iterations = sc_thread_destructor_iterations
system_config_macro thread_keys_max = sc_thread_keys_max
system_config_macro thread_stack_min = sc_thread_stack_min
system_config_macro thread_threads_max = sc_thread_threads_max
system_config_macro re_dup_max = sc_re_dup_max
system_config_macro rtsig_max = sc_rtsig_max
system_config_macro em_nsems_max = sc_sem_nsems_max
system_config_macro em_value_max = sc_sem_value_max
system_config_macro igqueue_max = sc_sigqueue_max
system_config_macro tream_max = sc_stream_max
system_config_macro ymloop_max = sc_symloop_max
system_config_macro timer_max = sc_timer_max
system_config_macro tty_name_max = sc_tty_name_max
system_config_macro tzname_max = sc_tzname_max
system_config_macro xopen_crypt = sc_xopen_crypt
system_config_macro xopen_enh_i18n = sc_xopen_enh_i18n
system_config_macro xopen_realtime = sc_xopen_realtime
system_config_macro xopen_realtime_threads = sc_xopen_realtime_threads
system_config_macro xopen_shm = sc_xopen_shm
system_config_macro xopen_streams = sc_xopen_streams
system_config_macro xopen_unix = sc_xopen_unix
system_config_macro xopen_version = sc_xopen_version
