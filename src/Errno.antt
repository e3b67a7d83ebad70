-- ===== src/Errno.antt =====
-- headers/sppc/types.h, ERRNO: the error numbers that the public functions return.
use sppc.Common.{ℕ}

abbrev pub eperm : ℕ
eperm = 1

abbrev pub enoent : ℕ
enoent = 2

abbrev pub esrch : ℕ
esrch = 3

abbrev pub eintr : ℕ
eintr = 4

abbrev pub eio : ℕ
eio = 5

abbrev pub enxio : ℕ
enxio = 6

abbrev pub e2big : ℕ
e2big = 7

abbrev pub enoexec : ℕ
enoexec = 8

abbrev pub ebadf : ℕ
ebadf = 9

abbrev pub echild : ℕ
echild = 10

abbrev pub eagain : ℕ
eagain = 11

abbrev pub enomem : ℕ
enomem = 12

abbrev pub eacces : ℕ
eacces = 13

abbrev pub efault : ℕ
efault = 14

abbrev pub enotblk : ℕ
enotblk = 15

abbrev pub ebusy : ℕ
ebusy = 16

abbrev pub eexist : ℕ
eexist = 17

abbrev pub exdev : ℕ
exdev = 18

abbrev pub enodev : ℕ
enodev = 19

abbrev pub enotdir : ℕ
enotdir = 20

abbrev pub eisdir : ℕ
eisdir = 21

abbrev pub einval : ℕ
einval = 22

abbrev pub enfile : ℕ
enfile = 23

abbrev pub emfile : ℕ
emfile = 24

abbrev pub enotty : ℕ
enotty = 25

abbrev pub etxtbsy : ℕ
etxtbsy = 26

abbrev pub efbig : ℕ
efbig = 27

abbrev pub enospc : ℕ
enospc = 28

abbrev pub espipe : ℕ
espipe = 29

abbrev pub erofs : ℕ
erofs = 30

abbrev pub emlink : ℕ
emlink = 31

abbrev pub epipe : ℕ
epipe = 32

abbrev pub edom : ℕ
edom = 33

abbrev pub erange : ℕ
erange = 34

abbrev pub edeadlk : ℕ
edeadlk = 35

abbrev pub enametoolong : ℕ
enametoolong = 36

abbrev pub enolck : ℕ
enolck = 37

abbrev pub enosys : ℕ
enosys = 38

abbrev pub enotempty : ℕ
enotempty = 39

abbrev pub eloop : ℕ
eloop = 40

abbrev pub ewouldblock : ℕ
ewouldblock = 11

abbrev pub enomsg : ℕ
enomsg = 42

abbrev pub eidrm : ℕ
eidrm = 43

abbrev pub echrng : ℕ
echrng = 44

abbrev pub el2nsync : ℕ
el2nsync = 45

abbrev pub el3hlt : ℕ
el3hlt = 46

abbrev pub el3rst : ℕ
el3rst = 47

abbrev pub elnrng : ℕ
elnrng = 48

abbrev pub eunatch : ℕ
eunatch = 49

abbrev pub enocsi : ℕ
enocsi = 50

abbrev pub el2hlt : ℕ
el2hlt = 51

abbrev pub ebade : ℕ
ebade = 52

abbrev pub ebadr : ℕ
ebadr = 53

abbrev pub exfull : ℕ
exfull = 54

abbrev pub enoano : ℕ
enoano = 55

abbrev pub ebadrqc : ℕ
ebadrqc = 56

abbrev pub ebadslt : ℕ
ebadslt = 57

abbrev pub edeadlock : ℕ
edeadlock = 35

abbrev pub ebfont : ℕ
ebfont = 59

abbrev pub enostr : ℕ
enostr = 60

abbrev pub enodata : ℕ
enodata = 61

abbrev pub etime : ℕ
etime = 62

abbrev pub enosr : ℕ
enosr = 63

abbrev pub enonet : ℕ
enonet = 64

abbrev pub enopkg : ℕ
enopkg = 65

abbrev pub eremote : ℕ
eremote = 66

abbrev pub enolink : ℕ
enolink = 67

abbrev pub eadv : ℕ
eadv = 68

abbrev pub esrmnt : ℕ
esrmnt = 69

abbrev pub ecomm : ℕ
ecomm = 70

abbrev pub eproto : ℕ
eproto = 71

abbrev pub emultihop : ℕ
emultihop = 72

abbrev pub edotdot : ℕ
edotdot = 73

abbrev pub ebadmsg : ℕ
ebadmsg = 74

abbrev pub eoverflow : ℕ
eoverflow = 75

abbrev pub enotuniq : ℕ
enotuniq = 76

abbrev pub ebadfd : ℕ
ebadfd = 77

abbrev pub eremchg : ℕ
eremchg = 78

abbrev pub elibacc : ℕ
elibacc = 79

abbrev pub elibbad : ℕ
elibbad = 80

abbrev pub elibscn : ℕ
elibscn = 81

abbrev pub elibmax : ℕ
elibmax = 82

abbrev pub elibexec : ℕ
elibexec = 83

abbrev pub eilseq : ℕ
eilseq = 84

abbrev pub erestart : ℕ
erestart = 85

abbrev pub estrpipe : ℕ
estrpipe = 86

abbrev pub eusers : ℕ
eusers = 87

abbrev pub enotsock : ℕ
enotsock = 88

abbrev pub edestaddrreq : ℕ
edestaddrreq = 89

abbrev pub emsgsize : ℕ
emsgsize = 90

abbrev pub eprototype : ℕ
eprototype = 91

abbrev pub enoprotoopt : ℕ
enoprotoopt = 92

abbrev pub eprotonosupport : ℕ
eprotonosupport = 93

abbrev pub esocktnosupport : ℕ
esocktnosupport = 94

abbrev pub eopnotsupp : ℕ
eopnotsupp = 95

abbrev pub epfnosupport : ℕ
epfnosupport = 96

abbrev pub eafnosupport : ℕ
eafnosupport = 97

abbrev pub eaddrinuse : ℕ
eaddrinuse = 98

abbrev pub eaddrnotavail : ℕ
eaddrnotavail = 99

abbrev pub enetdown : ℕ
enetdown = 100

abbrev pub enetunreach : ℕ
enetunreach = 101

abbrev pub enetreset : ℕ
enetreset = 102

abbrev pub econnaborted : ℕ
econnaborted = 103

abbrev pub econnreset : ℕ
econnreset = 104

abbrev pub enobufs : ℕ
enobufs = 105

abbrev pub eisconn : ℕ
eisconn = 106

abbrev pub enotconn : ℕ
enotconn = 107

abbrev pub eshutdown : ℕ
eshutdown = 108

abbrev pub etoomanyrefs : ℕ
etoomanyrefs = 109

abbrev pub etimedout : ℕ
etimedout = 110

abbrev pub econnrefused : ℕ
econnrefused = 111

abbrev pub ehostdown : ℕ
ehostdown = 112

abbrev pub ehostunreach : ℕ
ehostunreach = 113

abbrev pub ealready : ℕ
ealready = 114

abbrev pub einprogress : ℕ
einprogress = 115

abbrev pub estale : ℕ
estale = 116

abbrev pub euclean : ℕ
euclean = 117

abbrev pub enotnam : ℕ
enotnam = 118

abbrev pub enavail : ℕ
enavail = 119

abbrev pub eisnam : ℕ
eisnam = 120

abbrev pub eremoteio : ℕ
eremoteio = 121

abbrev pub edquot : ℕ
edquot = 122

abbrev pub enomedium : ℕ
enomedium = 123

abbrev pub emediumtype : ℕ
emediumtype = 124

abbrev pub ecanceled : ℕ
ecanceled = 125

abbrev pub enokey : ℕ
enokey = 126

abbrev pub ekeyexpired : ℕ
ekeyexpired = 127

abbrev pub ekeyrevoked : ℕ
ekeyrevoked = 128

abbrev pub ekeyrejected : ℕ
ekeyrejected = 129

abbrev pub eownerdead : ℕ
eownerdead = 130

abbrev pub enotrecoverable : ℕ
enotrecoverable = 131

abbrev pub erfkill : ℕ
erfkill = 132

abbrev pub ehwpoison : ℕ
ehwpoison = 133
