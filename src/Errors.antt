-- ===== src/Errors.antt =====
-- headers/sppc/errors.h: the C library's error numbers as sppc's. What number a name has on the
-- platform, if it has the name at all, is an argument `os`.
pub mod Table
mod Examples
use sppc.Common.{ℕ, Bool, true, false, ◌&&◌, Option, none, some, List, [], ◌∷◌, ◌==◌, if◌then◌else◌}
use sppc.Errno.{
  e2big, eacces, eaddrinuse, eaddrnotavail, eadv, eafnosupport, eagain, ealready, ebade, ebadf,
  ebadfd, ebadmsg, ebadr, ebadrqc, ebadslt, ebfont, ebusy, ecanceled, echild, echrng, ecomm,
  econnaborted, econnrefused, econnreset, edeadlk, edeadlock, edestaddrreq, edom, edotdot, edquot,
  eexist, efault, efbig, ehostdown, ehostunreach, ehwpoison, eidrm, eilseq, einprogress, eintr,
  einval, eio, eisconn, eisdir, eisnam, ekeyexpired, ekeyrejected, ekeyrevoked, el2hlt, el2nsync,
  el3hlt, el3rst, elibacc, elibbad, elibexec, elibmax, elibscn, elnrng, eloop, emediumtype, emfile,
  emlink, emsgsize, emultihop, enametoolong, enavail, enetdown, enetreset, enetunreach, enfile,
  enoano, enobufs, enocsi, enodata, enodev, enoent, enoexec, enokey, enolck, enolink, enomedium,
  enomem, enomsg, enonet, enopkg, enoprotoopt, enospc, enosr, enostr, enosys, enotblk, enotconn,
  enotdir, enotempty, enotnam, enotrecoverable, enotsock, enotty, enotuniq, enxio, eopnotsupp,
  eoverflow, eownerdead, eperm, epfnosupport, epipe, eproto, eprotonosupport, eprototype, erange,
  eremchg, eremote, eremoteio, erestart, erfkill, erofs, eshutdown, esocktnosupport, espipe, esrch,
  esrmnt, estale, estrpipe, etime, etimedout, etoomanyrefs, etxtbsy, euclean, eunatch, eusers,
  ewouldblock, exdev, exfull,
}

-- The names of <errno.h> that the source lists.
pub data Name : Type 0 where
  os_eperm os_enoent os_esrch os_eintr os_eio os_enxio os_e2big os_enoexec os_ebadf os_echild
        os_eagain os_enomem os_eacces os_efault os_enotblk os_ebusy os_eexist os_exdev os_enodev
        os_enotdir os_eisdir os_einval os_enfile os_emfile os_enotty os_etxtbsy os_efbig os_enospc
        os_espipe os_erofs os_emlink os_epipe os_edom os_erange os_edeadlk os_enametoolong os_enolck
        os_enosys os_enotempty os_eloop os_ewouldblock os_enomsg os_eidrm os_echrng os_el2nsync
        os_el3hlt os_el3rst os_elnrng os_eunatch os_enocsi os_el2hlt os_ebade os_ebadr os_exfull
        os_enoano os_ebadrqc os_ebadslt os_edeadlock os_ebfont os_enostr os_enodata os_etime
        os_enosr os_enonet os_enopkg os_eremote os_enolink os_eadv os_esrmnt os_ecomm os_eproto
        os_emultihop os_edotdot os_ebadmsg os_eoverflow os_enotuniq os_ebadfd os_eremchg os_elibacc
        os_elibbad os_elibscn os_elibmax os_elibexec os_eilseq os_erestart os_estrpipe os_eusers
        os_enotsock os_edestaddrreq os_emsgsize os_eprototype os_enoprotoopt os_eprotonosupport
        os_esocktnosupport os_eopnotsupp os_epfnosupport os_eafnosupport os_eaddrinuse
        os_eaddrnotavail os_enetdown os_enetunreach os_enetreset os_econnaborted os_econnreset
        os_enobufs os_eisconn os_enotconn os_eshutdown os_etoomanyrefs os_etimedout os_econnrefused
        os_ehostdown os_ehostunreach os_ealready os_einprogress os_estale os_euclean os_enotnam
        os_enavail os_eisnam os_eremoteio os_edquot os_enomedium os_emediumtype os_ecanceled
        os_enokey os_ekeyexpired os_ekeyrevoked os_ekeyrejected os_eownerdead os_enotrecoverable
        os_erfkill os_ehwpoison os_enotsup os_eproclim os_ebadexec os_ebadarch os_eshlibvers
        os_ebadmacho os_enoattr os_eqfull :
      Name

-- An entry of the table: its index, its value, and the name it must differ from, if the source asks
-- for that.
pub record Entry : Type 0 where
  pub name : Name
  pub value : ℕ
  pub other_than : Option Name

abbrev pub entry : Name → ℕ → Entry
entry n v = record { name = n; value = v; other_than = none }

abbrev pub alias : Name → ℕ → Name → Entry
alias n v m = record { name = n; value = v; other_than = some m }

-- The entries of `_sppc_errno`, in their order.
abbrev pub table_start : List Entry
table_start =
    entry Name.os_eperm eperm
    ∷ entry Name.os_enoent enoent
    ∷ entry Name.os_esrch esrch
    ∷ entry Name.os_eintr eintr
    ∷ entry Name.os_eio eio
    ∷ entry Name.os_enxio enxio
    ∷ entry Name.os_e2big e2big
    ∷ entry Name.os_enoexec enoexec
    ∷ entry Name.os_ebadf ebadf
    ∷ entry Name.os_echild echild
    ∷ entry Name.os_eagain eagain
    ∷ entry Name.os_enomem enomem
    ∷ entry Name.os_eacces eacces
    ∷ entry Name.os_efault efault
    ∷ entry Name.os_enotblk enotblk
    ∷ entry Name.os_ebusy ebusy
    ∷ entry Name.os_eexist eexist
    ∷ entry Name.os_exdev exdev
    ∷ entry Name.os_enodev enodev
    ∷ entry Name.os_enotdir enotdir
    ∷ entry Name.os_eisdir eisdir
    ∷ entry Name.os_einval einval
    ∷ entry Name.os_enfile enfile
    ∷ entry Name.os_emfile emfile
    ∷ entry Name.os_enotty enotty
    ∷ entry Name.os_etxtbsy etxtbsy
    ∷ entry Name.os_efbig efbig
    ∷ entry Name.os_enospc enospc
    ∷ entry Name.os_espipe espipe
    ∷ entry Name.os_erofs erofs
    ∷ entry Name.os_emlink emlink
    ∷ entry Name.os_epipe epipe
    ∷ entry Name.os_edom edom
    ∷ entry Name.os_erange erange
    ∷ entry Name.os_edeadlk edeadlk
    ∷ entry Name.os_enametoolong enametoolong
    ∷ entry Name.os_enolck enolck
    ∷ entry Name.os_enosys enosys
    ∷ entry Name.os_enotempty enotempty
    ∷ entry Name.os_eloop eloop
    ∷ alias Name.os_ewouldblock eagain Name.os_eagain
    ∷ entry Name.os_enomsg enomsg
    ∷ entry Name.os_eidrm eidrm
    ∷ entry Name.os_echrng echrng
    ∷ entry Name.os_el2nsync el2nsync
    ∷ entry Name.os_el3hlt el3hlt
    ∷ entry Name.os_el3rst el3rst
    ∷ []

-- Their second third.
abbrev pub table_middle : List Entry
table_middle =
    entry Name.os_elnrng elnrng
    ∷ entry Name.os_eunatch eunatch
    ∷ entry Name.os_enocsi enocsi
    ∷ entry Name.os_el2hlt el2hlt
    ∷ entry Name.os_ebade ebade
    ∷ entry Name.os_ebadr ebadr
    ∷ entry Name.os_exfull exfull
    ∷ entry Name.os_enoano enoano
    ∷ entry Name.os_ebadrqc ebadrqc
    ∷ entry Name.os_ebadslt ebadslt
    ∷ alias Name.os_edeadlock edeadlk Name.os_edeadlk
    ∷ entry Name.os_ebfont ebfont
    ∷ entry Name.os_enostr enostr
    ∷ entry Name.os_enodata enodata
    ∷ entry Name.os_etime etime
    ∷ entry Name.os_enosr enosr
    ∷ entry Name.os_enonet enonet
    ∷ entry Name.os_enopkg enopkg
    ∷ entry Name.os_eremote eremote
    ∷ entry Name.os_enolink enolink
    ∷ entry Name.os_eadv eadv
    ∷ entry Name.os_esrmnt esrmnt
    ∷ entry Name.os_ecomm ecomm
    ∷ entry Name.os_eproto eproto
    ∷ entry Name.os_emultihop emultihop
    ∷ entry Name.os_edotdot edotdot
    ∷ entry Name.os_ebadmsg ebadmsg
    ∷ entry Name.os_eoverflow eoverflow
    ∷ entry Name.os_enotuniq enotuniq
    ∷ entry Name.os_ebadfd ebadfd
    ∷ entry Name.os_eremchg eremchg
    ∷ entry Name.os_elibacc elibacc
    ∷ entry Name.os_elibbad elibbad
    ∷ entry Name.os_elibscn elibscn
    ∷ entry Name.os_elibmax elibmax
    ∷ entry Name.os_elibexec elibexec
    ∷ entry Name.os_eilseq eilseq
    ∷ entry Name.os_erestart erestart
    ∷ entry Name.os_estrpipe estrpipe
    ∷ entry Name.os_eusers eusers
    ∷ entry Name.os_enotsock enotsock
    ∷ entry Name.os_edestaddrreq edestaddrreq
    ∷ entry Name.os_emsgsize emsgsize
    ∷ entry Name.os_eprototype eprototype
    ∷ entry Name.os_enoprotoopt enoprotoopt
    ∷ entry Name.os_eprotonosupport eprotonosupport
    ∷ entry Name.os_esocktnosupport esocktnosupport
    ∷ []

-- Their last third.
abbrev pub table_end : List Entry
table_end =
    entry Name.os_eopnotsupp eopnotsupp
    ∷ entry Name.os_epfnosupport epfnosupport
    ∷ entry Name.os_eafnosupport eafnosupport
    ∷ entry Name.os_eaddrinuse eaddrinuse
    ∷ entry Name.os_eaddrnotavail eaddrnotavail
    ∷ entry Name.os_enetdown enetdown
    ∷ entry Name.os_enetunreach enetunreach
    ∷ entry Name.os_enetreset enetreset
    ∷ entry Name.os_econnaborted econnaborted
    ∷ entry Name.os_econnreset econnreset
    ∷ entry Name.os_enobufs enobufs
    ∷ entry Name.os_eisconn eisconn
    ∷ entry Name.os_enotconn enotconn
    ∷ entry Name.os_eshutdown eshutdown
    ∷ entry Name.os_etoomanyrefs etoomanyrefs
    ∷ entry Name.os_etimedout etimedout
    ∷ entry Name.os_econnrefused econnrefused
    ∷ entry Name.os_ehostdown ehostdown
    ∷ entry Name.os_ehostunreach ehostunreach
    ∷ entry Name.os_ealready ealready
    ∷ entry Name.os_einprogress einprogress
    ∷ entry Name.os_estale estale
    ∷ entry Name.os_euclean euclean
    ∷ entry Name.os_enotnam enotnam
    ∷ entry Name.os_enavail enavail
    ∷ entry Name.os_eisnam eisnam
    ∷ entry Name.os_eremoteio eremoteio
    ∷ entry Name.os_edquot edquot
    ∷ entry Name.os_enomedium enomedium
    ∷ entry Name.os_emediumtype emediumtype
    ∷ entry Name.os_ecanceled ecanceled
    ∷ entry Name.os_enokey enokey
    ∷ entry Name.os_ekeyexpired ekeyexpired
    ∷ entry Name.os_ekeyrevoked ekeyrevoked
    ∷ entry Name.os_ekeyrejected ekeyrejected
    ∷ entry Name.os_eownerdead eownerdead
    ∷ entry Name.os_enotrecoverable enotrecoverable
    ∷ entry Name.os_erfkill erfkill
    ∷ entry Name.os_ehwpoison ehwpoison
    ∷ alias Name.os_enotsup eopnotsupp Name.os_eopnotsupp
    ∷ entry Name.os_eproclim eagain
    ∷ entry Name.os_ebadexec enoexec
    ∷ entry Name.os_ebadarch enoexec
    ∷ entry Name.os_eshlibvers enoexec
    ∷ entry Name.os_ebadmacho enoexec
    ∷ alias Name.os_enoattr enodata Name.os_enodata
    ∷ entry Name.os_eqfull enobufs
    ∷ []

-- The equations that make `_SPPC_ERRNO_IDENTITY`, but for ENOTSUP's.
abbrev pub identity_pairs : List (Name × ℕ)
identity_pairs =
    (Name.os_eperm, eperm)
    ∷ (Name.os_enoent, enoent)
    ∷ (Name.os_esrch, esrch)
    ∷ (Name.os_eintr, eintr)
    ∷ (Name.os_eio, eio)
    ∷ (Name.os_enxio, enxio)
    ∷ (Name.os_e2big, e2big)
    ∷ (Name.os_enoexec, enoexec)
    ∷ (Name.os_ebadf, ebadf)
    ∷ (Name.os_echild, echild)
    ∷ (Name.os_eagain, eagain)
    ∷ (Name.os_enomem, enomem)
    ∷ (Name.os_eacces, eacces)
    ∷ (Name.os_efault, efault)
    ∷ (Name.os_enotblk, enotblk)
    ∷ (Name.os_ebusy, ebusy)
    ∷ (Name.os_eexist, eexist)
    ∷ (Name.os_exdev, exdev)
    ∷ (Name.os_enodev, enodev)
    ∷ (Name.os_enotdir, enotdir)
    ∷ (Name.os_eisdir, eisdir)
    ∷ (Name.os_einval, einval)
    ∷ (Name.os_enfile, enfile)
    ∷ (Name.os_emfile, emfile)
    ∷ (Name.os_enotty, enotty)
    ∷ (Name.os_etxtbsy, etxtbsy)
    ∷ (Name.os_efbig, efbig)
    ∷ (Name.os_enospc, enospc)
    ∷ (Name.os_espipe, espipe)
    ∷ (Name.os_erofs, erofs)
    ∷ (Name.os_emlink, emlink)
    ∷ (Name.os_epipe, epipe)
    ∷ (Name.os_edom, edom)
    ∷ (Name.os_erange, erange)
    ∷ (Name.os_edeadlk, edeadlk)
    ∷ (Name.os_enametoolong, enametoolong)
    ∷ (Name.os_enolck, enolck)
    ∷ (Name.os_enosys, enosys)
    ∷ (Name.os_enotempty, enotempty)
    ∷ (Name.os_eloop, eloop)
    ∷ (Name.os_ewouldblock, ewouldblock)
    ∷ (Name.os_enomsg, enomsg)
    ∷ (Name.os_eidrm, eidrm)
    ∷ (Name.os_echrng, echrng)
    ∷ (Name.os_el2nsync, el2nsync)
    ∷ (Name.os_el3hlt, el3hlt)
    ∷ (Name.os_el3rst, el3rst)
    ∷ (Name.os_elnrng, elnrng)
    ∷ (Name.os_eunatch, eunatch)
    ∷ (Name.os_enocsi, enocsi)
    ∷ (Name.os_el2hlt, el2hlt)
    ∷ (Name.os_ebade, ebade)
    ∷ (Name.os_ebadr, ebadr)
    ∷ (Name.os_exfull, exfull)
    ∷ (Name.os_enoano, enoano)
    ∷ (Name.os_ebadrqc, ebadrqc)
    ∷ (Name.os_ebadslt, ebadslt)
    ∷ (Name.os_edeadlock, edeadlock)
    ∷ (Name.os_ebfont, ebfont)
    ∷ (Name.os_enostr, enostr)
    ∷ (Name.os_enodata, enodata)
    ∷ (Name.os_etime, etime)
    ∷ (Name.os_enosr, enosr)
    ∷ (Name.os_enonet, enonet)
    ∷ (Name.os_enopkg, enopkg)
    ∷ (Name.os_eremote, eremote)
    ∷ (Name.os_enolink, enolink)
    ∷ (Name.os_eadv, eadv)
    ∷ (Name.os_esrmnt, esrmnt)
    ∷ (Name.os_ecomm, ecomm)
    ∷ (Name.os_eproto, eproto)
    ∷ (Name.os_emultihop, emultihop)
    ∷ (Name.os_edotdot, edotdot)
    ∷ (Name.os_ebadmsg, ebadmsg)
    ∷ (Name.os_eoverflow, eoverflow)
    ∷ (Name.os_enotuniq, enotuniq)
    ∷ (Name.os_ebadfd, ebadfd)
    ∷ (Name.os_eremchg, eremchg)
    ∷ (Name.os_elibacc, elibacc)
    ∷ (Name.os_elibbad, elibbad)
    ∷ (Name.os_elibscn, elibscn)
    ∷ (Name.os_elibmax, elibmax)
    ∷ (Name.os_elibexec, elibexec)
    ∷ (Name.os_eilseq, eilseq)
    ∷ (Name.os_erestart, erestart)
    ∷ (Name.os_estrpipe, estrpipe)
    ∷ (Name.os_eusers, eusers)
    ∷ (Name.os_enotsock, enotsock)
    ∷ (Name.os_edestaddrreq, edestaddrreq)
    ∷ (Name.os_emsgsize, emsgsize)
    ∷ (Name.os_eprototype, eprototype)
    ∷ (Name.os_enoprotoopt, enoprotoopt)
    ∷ (Name.os_eprotonosupport, eprotonosupport)
    ∷ (Name.os_esocktnosupport, esocktnosupport)
    ∷ (Name.os_eopnotsupp, eopnotsupp)
    ∷ (Name.os_epfnosupport, epfnosupport)
    ∷ (Name.os_eafnosupport, eafnosupport)
    ∷ (Name.os_eaddrinuse, eaddrinuse)
    ∷ (Name.os_eaddrnotavail, eaddrnotavail)
    ∷ (Name.os_enetdown, enetdown)
    ∷ (Name.os_enetunreach, enetunreach)
    ∷ (Name.os_enetreset, enetreset)
    ∷ (Name.os_econnaborted, econnaborted)
    ∷ (Name.os_econnreset, econnreset)
    ∷ (Name.os_enobufs, enobufs)
    ∷ (Name.os_eisconn, eisconn)
    ∷ (Name.os_enotconn, enotconn)
    ∷ (Name.os_eshutdown, eshutdown)
    ∷ (Name.os_etoomanyrefs, etoomanyrefs)
    ∷ (Name.os_etimedout, etimedout)
    ∷ (Name.os_econnrefused, econnrefused)
    ∷ (Name.os_ehostdown, ehostdown)
    ∷ (Name.os_ehostunreach, ehostunreach)
    ∷ (Name.os_ealready, ealready)
    ∷ (Name.os_einprogress, einprogress)
    ∷ (Name.os_estale, estale)
    ∷ (Name.os_euclean, euclean)
    ∷ (Name.os_enotnam, enotnam)
    ∷ (Name.os_enavail, enavail)
    ∷ (Name.os_eisnam, eisnam)
    ∷ (Name.os_eremoteio, eremoteio)
    ∷ (Name.os_edquot, edquot)
    ∷ (Name.os_enomedium, enomedium)
    ∷ (Name.os_emediumtype, emediumtype)
    ∷ (Name.os_ecanceled, ecanceled)
    ∷ (Name.os_enokey, enokey)
    ∷ (Name.os_ekeyexpired, ekeyexpired)
    ∷ (Name.os_ekeyrevoked, ekeyrevoked)
    ∷ (Name.os_ekeyrejected, ekeyrejected)
    ∷ (Name.os_eownerdead, eownerdead)
    ∷ (Name.os_enotrecoverable, enotrecoverable)
    ∷ (Name.os_erfkill, erfkill)
    ∷ (Name.os_ehwpoison, ehwpoison)
    ∷ []

abbrev pub is_number : Option ℕ → ℕ → Bool
is_number none n = false
is_number (some m) n = m == n

abbrev pub all_agree : (Name → Option ℕ) → List (Name × ℕ) → Bool
all_agree os [] = true
all_agree os (p ∷ ps) = is_number (os p.0) p.1 && all_agree os ps

-- `_SPPC_ERRNO_IDENTITY`.
unfoldable pub errno_identity : (Name → Option ℕ) → Bool
errno_identity os =
    all_agree os identity_pairs
    && elim (os Name.os_enotsup) [ none ↦ true | some n ↦ n == eopnotsupp ]

-- The index of an entry, where the preprocessor leaves it in.
abbrev pub index : (Name → Option ℕ) → Entry → Option ℕ
index os e = elim (os e.name) [
  | none ↦ none
  | some n ↦ elim e.other_than [
    | none ↦ some n
    | some m ↦ if is_number (os m) n then none else some n
  ]
]

-- The array's element at `err`: of the entries with that index the last, and 0 without one.
unfoldable pub element : (Name → Option ℕ) → List Entry → ℕ → ℕ
element os [] err = 0
element os (e ∷ es) err =
    let later = element os es err in
    if later == 0 then (if is_number (index os e) err then e.value else 0) else later

-- A value, or where it is 0 another.
unfoldable pub or_else : ℕ → ℕ → ℕ
or_else a b = if a == 0 then b else a

-- The table of `_sppc_errno`, in the parts above.
unfoldable pub look : (Name → Option ℕ) → ℕ → ℕ
unfolding element or_else
look os err =
    or_else (element os table_end err)
      (or_else (element os table_middle err) (element os table_start err))

-- `_sppc_errno` past the preprocessor's test, of a number that is not negative; what lies past the
-- array has no entry.
unfoldable pub errno_table : (Name → Option ℕ) → ℕ → ℕ
unfolding look or_else
errno_table os err = if err == 0 then 0 else or_else (look os err) eio

-- `_sppc_errno`.
unfoldable pub errno : (Name → Option ℕ) → ℕ → ℕ
unfolding errno_identity errno_table
errno os err = if errno_identity os then err else errno_table os err
