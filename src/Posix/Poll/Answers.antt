-- ===== src/Posix/Poll/Answers.antt =====
-- What `sppc_poll` hands to the system, and what it leaves of its caller's array and of the heap.
use sppc.Common.{ℕ, ◌≡◌, Option, none, some, List, map}
use sppc.Posix.Poll.{Pollfd, Answer, Polled}

-- What an entry asks for.
abbrev pub asked : Pollfd → ℕ × ℕ
asked p = (p.fd, p.events)

-- The blocks are those of before, every entry asks what it asked, and a call that fails leaves the array as it was.
abbrev pub Kept : List Pollfd → ℕ → Polled → Type 0
Kept fds live q =
    (q.live ≡ live) × (map asked q.fds ≡ map asked fds) × (q.count ≡ none → q.fds ≡ fds)

-- The count of an answer, none for a failure.
abbrev pub counted : Answer → Option ℕ
counted (Answer.ready n revents) = some n
counted (Answer.failed e) = none

-- The system was asked about the descriptors of the array, in order, and the count is its answer.
abbrev pub Asked : (List Pollfd → Answer) → List Pollfd → Polled → Type 0
Asked ask fds q =
    (sent : List Pollfd) × (map (λ p. p.fd) sent ≡ map (λ p. p.fd) fds)
    × (q.count ≡ counted (ask sent))
