-- ===== src/Report/Speaks.antt =====
-- Code that adds to a report: it writes nothing out, and never outside its arrays.
use mathlib.Core.List.{append_assoc, append-nil}
use sppc.Common.{
  ℕ, ◌-◌, ◌^◌, ◌<◌, Option, some, [], ◌∷◌, ◌++◌, ◌≡◌, refl, ap, sym, ◌∙◌, subst, length, take,
  Bytes, ◌>>=◌, if-either,
}
use sppc.Report.{Report, put_n, put, is_hashed, put_symbol, put_dec, put_hex}
use sppc.Report.Contents.{Says, put_n-Says, put-Says}
use sppc.Report.Numbers.{put_dec-reads, put_hex-reads}

-- The outcome is a report of `text` with something behind it.
abbrev pub Extends : Bytes → Bytes → Option Report → Type 0
Extends text err o =
    (r : Report) × (more : Bytes) × (o ≡ some r) × Says r (text ++ more) × (r.err ≡ err)

abbrev pub Speaks : (Report → Option Report) → Type 0
Speaks f = (r : Report) (text : Bytes) → Says r text → Extends text r.err (f r)

pub nothing-Speaks : Speaks some
nothing-Speaks r text h = (r, [], refl, subst (Says r) (sym (append-nil text)) h, refl)

pub put_n-Speaks : (s : Bytes) (n : ℕ) → Speaks (λ r. some (put_n s n r))
unfolding put_n
put_n-Speaks s n r text h = (put_n s n r, take n s, refl, put_n-Says s text n r h, refl)

pub put-Speaks : (s : Bytes) → Speaks (λ r. some (put s r))
unfolding put put_n
put-Speaks s r text h = (put s r, s, refl, put-Says s text r h, refl)

pub put_dec-Speaks : (v : ℕ) → v < 2 ^ 64 → Speaks (put_dec v)
put_dec-Speaks v small r text h =
    let (digits, found, _, _, _) = put_dec-reads v r small in
    subst (Extends text r.err) (sym found) (put-Speaks digits r text h)

pub put_hex-Speaks : (v : ℕ) → v < 2 ^ 64 → Speaks (put_hex v)
put_hex-Speaks v small r text h =
    let (digits, found, _, _) = put_hex-reads v r small in
    subst (Extends text r.err) (sym found) (put-Speaks (b'0' ∷ b'x' ∷ digits) r text h)

-- One piece of code after another.
pub chain-Speaks : (f g : Report → Option Report) → Speaks f → Speaks g → Speaks (λ r. f r >>= g)
chain-Speaks f g hf hg r text h =
    let (r1, more, found, says, kept) = hf r text h in
    let (r2, more2, found2, says2, kept2) = hg r1 (text ++ more) says in
    (
      r2,
      more ++ more2,
      ap (λ o. o >>= g) found ∙ found2,
      subst (Says r2) (append_assoc text more more2) says2,
      kept2 ∙ kept,
    )

pub put_symbol-Speaks : (name : Bytes) → Speaks (λ r. some (put_symbol name r))
unfolding put_symbol
put_symbol-Speaks name r text h =
    if-either (λ (q : Report). Extends text r.err (some q)) (is_hashed name)
      (put_n name (length name - 18) r) (put name r)
      (λ e. put_n-Speaks name (length name - 18) r text h) λ e. put-Speaks name r text h
