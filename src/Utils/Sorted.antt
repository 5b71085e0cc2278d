-- ===== src/Utils/Sorted.antt =====
-- common/utils/func.go: SortedTags writes what the map holds, whatever the order of its keys.
use falcon_plus.Base.{
  ℕ_discrete, suc, length, ◌≡◌, refl, ap, ◌∙◌, sym, subst, ◌≢◌, not, true, false, some, [], ◌∷◌,
  ◌++◌, if_both, if◌then◌else◌, arith,
}
use mathlib.Core.Logic.{∥∥₁_elim}
use mathlib.Core.List.{Perm, Permᴰ}
use falcon_plus.Base.Text.{Text, eq_text, eq_text_iff}
use falcon_plus.Base.Dict.{get, text_eq}
use falcon_plus.Utils.Tags.{Tags, insert_sorted, sort_tags, join_tags, sorted_tags, text_before, pk}

abbrev pub Lacks : Text → Tags → Type 0
Lacks key [] = Unit {0}
Lacks key ((k, v) ∷ m) = (key ≢ k) × Lacks key m

-- Each key once, as in a map.
abbrev pub AreDistinct : Tags → Type 0
AreDistinct [] = Unit {0}
AreDistinct ((k, v) ∷ m) = Lacks k m × AreDistinct m

insert_sorted-Lacks :
    (key k v : Text) (m : Tags) → key ≢ k → Lacks key m → Lacks key (insert_sorted k v m)
unfolding insert_sorted
insert_sorted-Lacks key k v [] n h = (n, tt)
insert_sorted-Lacks key k v ((j, w) ∷ m) n h = ground (arith, insert_sorted-Lacks key k v m n h.1)

sort_tags-Lacks : (key : Text) (m : Tags) → Lacks key m → Lacks key (sort_tags m)
unfolding sort_tags
sort_tags-Lacks key [] h = tt
sort_tags-Lacks key ((k, v) ∷ m) h =
    insert_sorted-Lacks key k v (sort_tags m) h.0 (sort_tags-Lacks key m h.1)

insert_sorted-AreDistinct :
    (k v : Text) (m : Tags) → Lacks k m → AreDistinct m → AreDistinct (insert_sorted k v m)
unfolding insert_sorted
insert_sorted-AreDistinct k v [] h d = (tt, tt)
insert_sorted-AreDistinct k v ((j, w) ∷ m) h d =
    if_both AreDistinct (text_before j k)
      (insert_sorted-Lacks j k v m (λ e. h.0 (sym e)) d.0, insert_sorted-AreDistinct k v m h.1 d.1)
      (h, d)

pub sort_tags-AreDistinct : (m : Tags) → AreDistinct m → AreDistinct (sort_tags m)
unfolding sort_tags
sort_tags-AreDistinct [] d = tt
sort_tags-AreDistinct ((k, v) ∷ m) d =
    insert_sorted-AreDistinct k v (sort_tags m) (sort_tags-Lacks k m d.0)
      (sort_tags-AreDistinct m d.1)

get-insert_sorted :
    (key k v : Text) (m : Tags)
    → Lacks k m
    → get key (insert_sorted k v m) ≡ (if eq_text k key then some v else get key m)
unfolding insert_sorted get
get-insert_sorted key k v [] h = refl
get-insert_sorted key k v ((j, w) ∷ m) h =
    ground (arith, get-insert_sorted key k v m h.1, eq_text_iff k key, eq_text_iff j key)

pub get-sort_tags : (key : Text) (m : Tags) → AreDistinct m → get key (sort_tags m) ≡ get key m
unfolding sort_tags get
get-sort_tags key [] d = refl
get-sort_tags key ((k, v) ∷ m) d =
    get-insert_sorted key k v (sort_tags m) (sort_tags-Lacks k m d.0)
    ∙ ap (λ rest. if eq_text k key then some v else rest) (get-sort_tags key m d.1)

before_total : (a b : Text) → a ≢ b → text_before a b ≡ not (text_before b a)
unfolding text_before
before_total [] [] h = absurd (h refl)
before_total [] (y ∷ b) h = refl
before_total (x ∷ a) [] h = refl
before_total (x ∷ a) (y ∷ b) h = ground (arith, before_total a b)

before_trans :
    (i k j : Text) → text_before i k ≡ false → text_before i j ≡ true → text_before k j ≡ true
unfolding text_before
before_trans i [] [] p q = absurd (ground arith)
before_trans [] [] (y ∷ j) p q = refl
before_trans (x ∷ i) [] (y ∷ j) p q = refl
before_trans [] (z ∷ k) j p q = absurd (ground arith)
before_trans (x ∷ i) (z ∷ k) [] p q = absurd (ground arith)
before_trans (x ∷ i) (z ∷ k) (y ∷ j) p q = ground (arith, before_trans i k j)

insert_sorted_comm :
    (k v j w : Text) (m : Tags)
    → k ≢ j
    → insert_sorted k v (insert_sorted j w m) ≡ insert_sorted j w (insert_sorted k v m)
unfolding insert_sorted
insert_sorted_comm k v j w [] n = ground (arith, before_total k j n)
insert_sorted_comm k v j w ((i, u) ∷ m) n = ground (
  arith,
  before_total k j n,
  before_trans i k j,
  before_trans i j k,
  insert_sorted_comm k v j w m n,
)

Lacks-Permᴰ : (key : Text) (m m' : Tags) → Permᴰ m m' → Lacks key m → Lacks key m'
Lacks-Permᴰ key _ _ Permᴰ.nil h = tt
Lacks-Permᴰ key _ _ (Permᴰ.cons e p) h = (ground (arith, h.0), Lacks-Permᴰ key _ _ p h.1)
Lacks-Permᴰ key _ _ (Permᴰ.swap e e') h = (ground (arith, h), (ground (arith, h), h.1.1))
Lacks-Permᴰ key _ _ (Permᴰ.trans p q) h = Lacks-Permᴰ key _ _ q (Lacks-Permᴰ key _ _ p h)

AreDistinct-Permᴰ : (m m' : Tags) → Permᴰ m m' → AreDistinct m → AreDistinct m'
AreDistinct-Permᴰ _ _ Permᴰ.nil d = tt
AreDistinct-Permᴰ _ _ (Permᴰ.cons {l₂ = l₂} e p) d =
    (subst (λ t. Lacks t.0 l₂) e (Lacks-Permᴰ _ _ l₂ p d.0), AreDistinct-Permᴰ _ l₂ p d.1)
AreDistinct-Permᴰ _ _ (Permᴰ.swap {b = b} {b' = b'} {l = l} e e') d =
    subst (λ t. AreDistinct (t ∷ b' ∷ l)) e'
      (subst (λ t. AreDistinct (b ∷ t ∷ l)) e (((λ q. d.0.0 (sym q)), d.1.0), (d.0.1, d.1.1)))
AreDistinct-Permᴰ _ _ (Permᴰ.trans p q) d = AreDistinct-Permᴰ _ _ q (AreDistinct-Permᴰ _ _ p d)

sort_tags-Permᴰ : (m m' : Tags) → Permᴰ m m' → AreDistinct m → sort_tags m ≡ sort_tags m'
unfolding sort_tags
sort_tags-Permᴰ _ _ Permᴰ.nil d = refl
sort_tags-Permᴰ _ _ (Permᴰ.cons {b = b} {l₁ = l₁} e p) d =
    ap (λ t. insert_sorted t.0 t.1 (sort_tags l₁)) e
    ∙ ap (insert_sorted b.0 b.1) (sort_tags-Permᴰ _ _ p d.1)
sort_tags-Permᴰ _ _ (Permᴰ.swap {a = a} {b = b} {a' = a'} {l = l} e e') d =
    insert_sorted_comm a.0 a.1 b.0 b.1 (sort_tags l) d.0.0
    ∙ ap (λ t. insert_sorted t.0 t.1 (insert_sorted a.0 a.1 (sort_tags l))) e'
    ∙ ap (λ t. insert_sorted a'.0 a'.1 (insert_sorted t.0 t.1 (sort_tags l))) e
sort_tags-Permᴰ m m' (Permᴰ.trans p q) d =
    sort_tags-Permᴰ m _ p d ∙ sort_tags-Permᴰ _ m' q (AreDistinct-Permᴰ m _ p d)

Permᴰ-length : (m m' : Tags) → Permᴰ m m' → length m ≡ length m'
Permᴰ-length _ _ Permᴰ.nil = refl
Permᴰ-length _ _ (Permᴰ.cons e p) = ap suc (Permᴰ-length _ _ p)
Permᴰ-length _ _ (Permᴰ.swap e e') = refl
Permᴰ-length m m' (Permᴰ.trans p q) = Permᴰ-length m _ p ∙ Permᴰ-length _ m' q

pk-Permᴰ :
    (endpoint metric : Text) (m m' : Tags)
    → Permᴰ m m'
    → AreDistinct m
    → pk endpoint metric m ≡ pk endpoint metric m'
unfolding pk sorted_tags
pk-Permᴰ endpoint metric [] [] p d = refl
pk-Permᴰ endpoint metric [] (t ∷ m') p d = absurd (ground (arith, Permᴰ-length [] (t ∷ m') p))
pk-Permᴰ endpoint metric (t ∷ m) [] p d = absurd (ground (arith, Permᴰ-length (t ∷ m) [] p))
pk-Permᴰ endpoint metric (t ∷ m) (t' ∷ m') p d =
    ap (λ s. endpoint ++ b'/' ∷ (metric ++ b'/' ∷ join_tags s))
      (sort_tags-Permᴰ (t ∷ m) (t' ∷ m') p d)

-- The key of a counter is the same for every order of its tags, whose keys are distinct.
pub pk-Perm :
    (endpoint metric : Text) (m m' : Tags)
    → Perm m m'
    → AreDistinct m
    → pk endpoint metric m ≡ pk endpoint metric m'
pk-Perm endpoint metric m m' p d =
    ∥∥₁_elim p (hlevel ℕ_discrete) (λ q. pk-Permᴰ endpoint metric m m' q d)
