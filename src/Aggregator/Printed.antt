-- ===== src/Aggregator/Printed.antt =====
-- modules/aggregator/cron/run.go: expressions as they are written, and what parse makes of them.
use falcon_plus.Base.{◌≡◌, refl, ◌≢◌, Bool, true, false, some, List, [], ◌∷◌, ◌++◌, map, All}
use mathlib.Core.List.{append-nil}
use falcon_plus.Base.Text.{Text, codes, eq_text}
use falcon_plus.Aggregator.Parse.{
  need_compute, is_mark, starts_with_mark, split_counter, items_from, parse, operators_valid,
}

-- A text in which no byte is a mark.
abbrev pub IsName : Text → Type 0
IsName s = All (λ c. is_mark c ≡ false) s

-- A counter added or subtracted.
pub data Term : Type 0 where
  plus : Text → Term
  minus : Text → Term

abbrev pub counter_of : Term → Text
counter_of (plus c) = c
counter_of (minus c) = c

abbrev pub operator_of : Term → Text
operator_of (plus c) = codes "+"
operator_of (minus c) = codes "-"

-- "$(c)+$(d)-$(e)", followed by `rest`.
abbrev pub printed : Text → List Term → Text → Text
printed c [] rest = b'$' ∷ b'(' ∷ (c ++ b')' ∷ rest)
printed c (t ∷ ts) rest =
    b'$' ∷ b'(' ∷ (c ++ b')' ∷ (operator_of t ++ printed (counter_of t) ts rest))

abbrev pub IsCounter : Text → Type 0
IsCounter c = (c ≢ []) × IsName c

abbrev pub AreCounters : List Term → Type 0
AreCounters ts = All (λ t. IsCounter (counter_of t)) ts

-- The items after the first.
abbrev items_of : Text → List Term → Text → List Text
items_of c [] mode = c ∷ mode ∷ []
items_of c (t ∷ ts) mode = c ∷ operator_of t ∷ items_of (counter_of t) ts mode

split_name :
    (c rest : Text) (part : Text) (parts : List Text)
    → IsName c
    → split_counter rest ≡ part ∷ parts
    → split_counter (c ++ rest) ≡ (c ++ part) ∷ parts
unfolding split_counter
split_name [] rest part parts h e = e
split_name (x ∷ c) rest part parts h e = rw (h.0, split_name c rest part parts h.1 e) refl

split_open :
    (c rest : Text) (parts : List Text)
    → IsCounter c
    → split_counter rest ≡ [] ∷ parts
    → split_counter (b'$' ∷ b'(' ∷ (c ++ rest)) ≡ [] ∷ c ∷ parts
unfolding split_counter
split_open [] rest parts h e = absurd (h.0 refl)
split_open (x ∷ c) rest parts h e =
    rw (h.1.0, split_name c rest [] parts h.1.1 e) (rw (append-nil c) refl)

-- What closes an expression: the closing marks, and the mode.
abbrev Closes : Text → Text → Type 0
Closes rest mode = split_counter (b')' ∷ rest) ≡ [] ∷ mode ∷ []

split_term :
    (t : Term) (s : Text) (parts : List Text)
    → split_counter s ≡ [] ∷ parts
    → split_counter (b')' ∷ (operator_of t ++ s)) ≡ [] ∷ operator_of t ∷ parts
unfolding split_counter
split_term (plus c) s parts e = rw e refl
split_term (minus c) s parts e = rw e refl

split_printed :
    (c : Text) (ts : List Term) (rest mode : Text)
    → IsCounter c
    → AreCounters ts
    → Closes rest mode
    → split_counter (printed c ts rest) ≡ [] ∷ items_of c ts mode
split_printed c [] rest mode h a e = split_open c (b')' ∷ rest) (mode ∷ []) h e
split_printed c (t ∷ ts) rest mode h a e =
    let s = printed (counter_of t) ts rest in
    let parts = items_of (counter_of t) ts mode in
    let after = split_printed (counter_of t) ts rest mode a.0 a.1 e in
    split_open c (b')' ∷ (operator_of t ++ s)) (operator_of t ∷ parts) h
      (split_term t s parts after)

starts_name : (mode : Text) → IsName mode → starts_with_mark mode ≡ false
starts_name [] h = refl
starts_name (x ∷ mode) h = h.0

split_mode : (mode : Text) → IsName mode → split_counter mode ≡ mode ∷ []
unfolding split_counter
split_mode [] h = refl
split_mode (x ∷ mode) h = rw (h.0, split_mode mode h.1) refl

Closes-mode : (mode : Text) → IsName mode → Closes mode mode
unfolding split_counter
Closes-mode mode h = rw (starts_name mode h, split_mode mode h) refl

items_from-items_of :
    (c : Text) (ts : List Term) (mode : Text)
    → items_from true (items_of c ts mode)
      ≡ some (record {
        operands = c ∷ map counter_of ts;
        operators = map operator_of ts;
        compute_mode = mode;
      })
unfolding items_from
items_from-items_of c [] mode = refl
items_from-items_of c (t ∷ []) mode = refl
items_from-items_of c (t ∷ t' ∷ ts) mode =
    rw (items_from-items_of (counter_of t) (t' ∷ ts) mode) refl

-- "$(c)+$(d)", or "($(c)+$(d))", with a mode as ">80" behind.
abbrev pub text_of : Bool → Text → List Term → Text → Text
text_of true c ts mode = b'(' ∷ printed c ts (b')' ∷ mode)
text_of false c ts mode = printed c ts mode

operators-valid : (ts : List Term) → operators_valid (map operator_of ts) ≡ true
unfolding operators_valid eq_text
operators-valid [] = refl
operators-valid (plus c ∷ ts) = operators-valid ts
operators-valid (minus c ∷ ts) = operators-valid ts

split_text :
    (grouped : Bool) (c : Text) (ts : List Term) (mode : Text)
    → IsCounter c
    → AreCounters ts
    → IsName mode
    → split_counter (text_of grouped c ts mode) ≡ [] ∷ items_of c ts mode
unfolding split_counter
split_text false c ts mode h a m = split_printed c ts mode mode h a (Closes-mode mode m)
split_text true c [] mode h a m = split_printed c [] (b')' ∷ mode) mode h a (Closes-mode mode m)
split_text true c (t ∷ ts) mode h a m =
    split_printed c (t ∷ ts) (b')' ∷ mode) mode h a (Closes-mode mode m)

pub needs :
    (grouped : Bool) (c : Text) (ts : List Term) (mode : Text)
    → need_compute (text_of grouped c ts mode) ≡ true
unfolding need_compute
needs true c [] mode = refl
needs true c (t ∷ ts) mode = refl
needs false c [] mode = refl
needs false c (t ∷ ts) mode = refl

-- An expression of counters that are not empty and hold no dollar and no bracket, added and
-- subtracted, in brackets or not, with a mode without such marks behind, is what parse makes of
-- its text: its counters, its operators, all of them valid, and its mode.
pub parse-text_of :
    (grouped : Bool) (c : Text) (ts : List Term) (mode : Text)
    → IsCounter c
    → AreCounters ts
    → IsName mode
    → let e = text_of grouped c ts mode in
      (parse e (need_compute e)
        ≡ some (record {
          operands = c ∷ map counter_of ts;
          operators = map operator_of ts;
          compute_mode = mode;
        }))
      × (operators_valid (map operator_of ts) ≡ true)
unfolding parse
parse-text_of grouped c ts mode h a m = (
  rw (needs grouped c ts mode, split_text grouped c ts mode h a m) (items_from-items_of c ts mode),
  operators-valid ts,
)
