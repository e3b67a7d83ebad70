-- ===== src/Windows/Errors.antt =====
-- headers/sppc/platform/windows.h, ERRORS: Win32's and Winsock's error codes as sppc's. The codes
-- are the names that the `switch`es list, and `other` for any further one.
use sppc.Common.{ℕ, ◌≤◌, ◌≡◌, ◌↔◌, arith}
use sppc.Errno.{
  e2big, eacces, eaddrinuse, eaddrnotavail, eafnosupport, eagain, ealready, ebadf, ebusy, ecanceled,
  echild, econnaborted, econnrefused, econnreset, edeadlk, edestaddrreq, edquot, eexist, efault,
  efbig, ehostdown, ehostunreach, einprogress, eintr, einval, eio, eisconn, eisdir, eloop, emfile,
  emlink, emsgsize, enametoolong, enetdown, enetreset, enetunreach, enobufs, enodev, enoent,
  enoexec, enomem, enoprotoopt, enospc, enosys, enotconn, enotdir, enotempty, enotsock, eopnotsupp,
  eperm, epfnosupport, epipe, eprotonosupport, eprototype, erange, eremote, erofs, esocktnosupport,
  estale, etimedout, etoomanyrefs, eusers, exdev,
}

-- The codes that `_sppc_errno_win32` tells apart.
pub data Win32 : Type 0 where
  success file_not_found path_not_found invalid_drive no_more_files bad_netpath bad_net_name
        bad_pathname mod_not_found too_many_open_files access_denied current_directory
        network_access_denied cannot_make fail_i24 drive_locked seek_on_device not_locked
        lock_failed delete_pending privilege_not_held not_owner invalid_handle invalid_target_handle
        direct_access_handle arena_trashed not_enough_memory invalid_block not_enough_quota
        outofmemory commitment_limit working_set_quota bad_environment bad_format bad_exe_format
        invalid_exe_signature exe_machine_type_mismatch invalid_function invalid_access invalid_data
        invalid_parameter negative_seek invalid_name not_a_reparse_point not_same_device
        write_protect sharing_violation lock_violation busy pipe_busy handle_disk_full disk_full
        disk_quota_exceeded file_too_large file_exists already_exists broken_pipe no_data
        dir_not_empty directory directory_not_supported filename_exced_range cant_resolve_filename
        stopped_on_symlink too_many_links insufficient_buffer dev_not_exist bad_unit
        wait_no_children child_not_complete no_proc_slots max_thrds_reached nesting_not_allowed
        possible_deadlock timeout sem_timeout wait_timeout operation_aborted not_supported
        call_not_implemented other :
      Win32

-- `_sppc_errno_win32`.
unfoldable pub errno_win32 : Win32 → ℕ
errno_win32 Win32.success = 0
errno_win32 Win32.file_not_found = enoent
errno_win32 Win32.path_not_found = enoent
errno_win32 Win32.invalid_drive = enoent
errno_win32 Win32.no_more_files = enoent
errno_win32 Win32.bad_netpath = enoent
errno_win32 Win32.bad_net_name = enoent
errno_win32 Win32.bad_pathname = enoent
errno_win32 Win32.mod_not_found = enoent
errno_win32 Win32.too_many_open_files = emfile
errno_win32 Win32.access_denied = eacces
errno_win32 Win32.current_directory = eacces
errno_win32 Win32.network_access_denied = eacces
errno_win32 Win32.cannot_make = eacces
errno_win32 Win32.fail_i24 = eacces
errno_win32 Win32.drive_locked = eacces
errno_win32 Win32.seek_on_device = eacces
errno_win32 Win32.not_locked = eacces
errno_win32 Win32.lock_failed = eacces
errno_win32 Win32.delete_pending = eacces
errno_win32 Win32.privilege_not_held = eperm
errno_win32 Win32.not_owner = eperm
errno_win32 Win32.invalid_handle = ebadf
errno_win32 Win32.invalid_target_handle = ebadf
errno_win32 Win32.direct_access_handle = ebadf
errno_win32 Win32.arena_trashed = enomem
errno_win32 Win32.not_enough_memory = enomem
errno_win32 Win32.invalid_block = enomem
errno_win32 Win32.not_enough_quota = enomem
errno_win32 Win32.outofmemory = enomem
errno_win32 Win32.commitment_limit = enomem
errno_win32 Win32.working_set_quota = enomem
errno_win32 Win32.bad_environment = e2big
errno_win32 Win32.bad_format = enoexec
errno_win32 Win32.bad_exe_format = enoexec
errno_win32 Win32.invalid_exe_signature = enoexec
errno_win32 Win32.exe_machine_type_mismatch = enoexec
errno_win32 Win32.invalid_function = einval
errno_win32 Win32.invalid_access = einval
errno_win32 Win32.invalid_data = einval
errno_win32 Win32.invalid_parameter = einval
errno_win32 Win32.negative_seek = einval
errno_win32 Win32.invalid_name = einval
errno_win32 Win32.not_a_reparse_point = einval
errno_win32 Win32.not_same_device = exdev
errno_win32 Win32.write_protect = erofs
errno_win32 Win32.sharing_violation = ebusy
errno_win32 Win32.lock_violation = ebusy
errno_win32 Win32.busy = ebusy
errno_win32 Win32.pipe_busy = ebusy
errno_win32 Win32.handle_disk_full = enospc
errno_win32 Win32.disk_full = enospc
errno_win32 Win32.disk_quota_exceeded = edquot
errno_win32 Win32.file_too_large = efbig
errno_win32 Win32.file_exists = eexist
errno_win32 Win32.already_exists = eexist
errno_win32 Win32.broken_pipe = epipe
errno_win32 Win32.no_data = epipe
errno_win32 Win32.dir_not_empty = enotempty
errno_win32 Win32.directory = enotdir
errno_win32 Win32.directory_not_supported = eisdir
errno_win32 Win32.filename_exced_range = enametoolong
errno_win32 Win32.cant_resolve_filename = eloop
errno_win32 Win32.stopped_on_symlink = eloop
errno_win32 Win32.too_many_links = emlink
errno_win32 Win32.insufficient_buffer = erange
errno_win32 Win32.dev_not_exist = enodev
errno_win32 Win32.bad_unit = enodev
errno_win32 Win32.wait_no_children = echild
errno_win32 Win32.child_not_complete = echild
errno_win32 Win32.no_proc_slots = eagain
errno_win32 Win32.max_thrds_reached = eagain
errno_win32 Win32.nesting_not_allowed = eagain
errno_win32 Win32.possible_deadlock = edeadlk
errno_win32 Win32.timeout = etimedout
errno_win32 Win32.sem_timeout = etimedout
errno_win32 Win32.wait_timeout = etimedout
errno_win32 Win32.operation_aborted = ecanceled
errno_win32 Win32.not_supported = eopnotsupp
errno_win32 Win32.call_not_implemented = enosys
errno_win32 Win32.other = eio

-- The codes that `_sppc_errno_wsa` tells apart.
pub data Wsa : Type 0 where
  success wsaeintr wsaebadf wsa_invalid_handle wsaeacces wsaefault wsaeinval wsa_invalid_parameter
        wsaemfile wsaewouldblock wsaeinprogress wsaealready wsaenotsock wsaedestaddrreq wsaemsgsize
        wsaeprototype wsaenoprotoopt wsaeprotonosupport wsaesocktnosupport wsaeopnotsupp
        wsaepfnosupport wsaeafnosupport wsaeaddrinuse wsaeaddrnotavail wsaenetdown wsaenetunreach
        wsaenetreset wsaeconnaborted wsaeconnreset wsaediscon wsaenobufs wsaeisconn wsaenotconn
        wsaeshutdown wsaetoomanyrefs wsaetimedout wsaeconnrefused wsaeloop wsaenametoolong
        wsaehostdown wsaehostunreach wsaenotempty wsaeproclim wsaeusers wsaedquot wsaestale
        wsaeremote wsa_not_enough_memory wsa_operation_aborted wsaecancelled other :
      Wsa

-- `_sppc_errno_wsa`.
unfoldable pub errno_wsa : Wsa → ℕ
errno_wsa Wsa.success = 0
errno_wsa Wsa.wsaeintr = eintr
errno_wsa Wsa.wsaebadf = ebadf
errno_wsa Wsa.wsa_invalid_handle = ebadf
errno_wsa Wsa.wsaeacces = eacces
errno_wsa Wsa.wsaefault = efault
errno_wsa Wsa.wsaeinval = einval
errno_wsa Wsa.wsa_invalid_parameter = einval
errno_wsa Wsa.wsaemfile = emfile
errno_wsa Wsa.wsaewouldblock = eagain
errno_wsa Wsa.wsaeinprogress = einprogress
errno_wsa Wsa.wsaealready = ealready
errno_wsa Wsa.wsaenotsock = enotsock
errno_wsa Wsa.wsaedestaddrreq = edestaddrreq
errno_wsa Wsa.wsaemsgsize = emsgsize
errno_wsa Wsa.wsaeprototype = eprototype
errno_wsa Wsa.wsaenoprotoopt = enoprotoopt
errno_wsa Wsa.wsaeprotonosupport = eprotonosupport
errno_wsa Wsa.wsaesocktnosupport = esocktnosupport
errno_wsa Wsa.wsaeopnotsupp = eopnotsupp
errno_wsa Wsa.wsaepfnosupport = epfnosupport
errno_wsa Wsa.wsaeafnosupport = eafnosupport
errno_wsa Wsa.wsaeaddrinuse = eaddrinuse
errno_wsa Wsa.wsaeaddrnotavail = eaddrnotavail
errno_wsa Wsa.wsaenetdown = enetdown
errno_wsa Wsa.wsaenetunreach = enetunreach
errno_wsa Wsa.wsaenetreset = enetreset
errno_wsa Wsa.wsaeconnaborted = econnaborted
errno_wsa Wsa.wsaeconnreset = econnreset
errno_wsa Wsa.wsaediscon = econnreset
errno_wsa Wsa.wsaenobufs = enobufs
errno_wsa Wsa.wsaeisconn = eisconn
errno_wsa Wsa.wsaenotconn = enotconn
errno_wsa Wsa.wsaeshutdown = epipe
errno_wsa Wsa.wsaetoomanyrefs = etoomanyrefs
errno_wsa Wsa.wsaetimedout = etimedout
errno_wsa Wsa.wsaeconnrefused = econnrefused
errno_wsa Wsa.wsaeloop = eloop
errno_wsa Wsa.wsaenametoolong = enametoolong
errno_wsa Wsa.wsaehostdown = ehostdown
errno_wsa Wsa.wsaehostunreach = ehostunreach
errno_wsa Wsa.wsaenotempty = enotempty
errno_wsa Wsa.wsaeproclim = eagain
errno_wsa Wsa.wsaeusers = eusers
errno_wsa Wsa.wsaedquot = edquot
errno_wsa Wsa.wsaestale = estale
errno_wsa Wsa.wsaeremote = eremote
errno_wsa Wsa.wsa_not_enough_memory = enomem
errno_wsa Wsa.wsa_operation_aborted = ecanceled
errno_wsa Wsa.wsaecancelled = ecanceled
errno_wsa Wsa.other = eio

-- A Win32 code, whichever it is, becomes 0 when it is ERROR_SUCCESS, and otherwise one of sppc's
-- error numbers, from 1 to 133: no failure is reported as success.
pub errno_win32_sound :
    (e : Win32) → (errno_win32 e ≤ 133) × ((errno_win32 e ≡ 0) ↔ (e ≡ Win32.success))
unfolding errno_win32
errno_win32_sound e = (ground arith, (λ h. ground arith, λ h. ground arith))

-- A Winsock code, whichever it is, becomes 0 when it is 0, and otherwise one of sppc's error
-- numbers, from 1 to 133: no failure is reported as success.
pub errno_wsa_sound : (e : Wsa) → (errno_wsa e ≤ 133) × ((errno_wsa e ≡ 0) ↔ (e ≡ Wsa.success))
unfolding errno_wsa
errno_wsa_sound e = (ground arith, (λ h. ground arith, λ h. ground arith))
