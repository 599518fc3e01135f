-- ===== src/Common/Schemas.antt =====
-- The source's array schemas: every row is normalised (trimmed) and its fields are checked, the
-- number of rows is bounded, and a refinement walks over the rows with the set of the keys seen so
-- far. The rows are typed values here, so that an absent field or a field of another type is not
-- among the inputs.
use Prim.Native.String.{String}
use online_seller_control_hu.Common.Tests.{leb, if◌then◌else◌, nat_eq}
use online_seller_control_hu.Common.Lists.{
  length, All, includes, IsUnique, IsFresh, IsFresh-cons, IsFresh-head, IsFresh-tail, IsFresh-nil,
}
use online_seller_control_hu.Common.Texts.{Text, text_eq}
use online_seller_control_hu.Common.Results.{Result, ok, throw}
use Prim.Native.Nat.{ℕ, suc, ◌≤◌}
use mathlib.Core.Path.{◌≡◌, refl}
use mathlib.Core.Logic.{◌↔◌}
use mathlib.Core.Bool.{Bool, true, ◌&&◌}
use mathlib.Core.List.{List, [], ◌∷◌, ◌++◌, map}
use mathlib.Core.Option.{Option, none, some}
use native.Mathlib.Omega.{arith}

-- What a `ZodError` reports: a size, a field of a row, or a refinement's own message.
pub data Issue : Type 0 where
  too_small too_big : Issue
  bad_field : (index : ℕ) → Issue
  custom : (index : ℕ) (message : String) → Issue

-- `z.string().min(lo).max(hi)` of a text that is trimmed already.
abbrev pub text_between : ℕ → ℕ → Text → Bool
text_between lo hi s = leb lo (length s) && leb (length s) hi

-- An optional field is checked where it is present.
abbrev pub if_present {ℓ} : {A : Type ℓ} → (A → Bool) → Option A → Bool
if_present p none = true
if_present p (some a) = p a

pub record Schema (A : Type 0) : Type 0 where
  pub normalize : A → A
  pub fields : A → Bool
  pub key : A → Text
  -- The message for a key that was seen before, and those of the row's own refinement.
  pub duplicate : String
  pub faults : A → List String

-- `if (bad) ctx.addIssue(message)`.
abbrev pub fault_if : Bool → String → List String
fault_if bad message = if bad then message ∷ [] else []

module _ {A : Type 0} where
  pub size_issues : ℕ → ℕ → List A → List Issue
  size_issues lo hi xs =
      (if leb lo (length xs) then [] else too_small ∷ [])
      ++ (if leb (length xs) hi then [] else too_big ∷ [])

  pub field_issues : Schema A → ℕ → List A → List Issue
  field_issues s i [] = []
  field_issues s i (x ∷ xs) =
      if s.fields x then field_issues s (suc i) xs else bad_field i ∷ field_issues s (suc i) xs

  -- The loop of `superRefine`.
  pub refine_from : Schema A → List Text → ℕ → List A → List Issue
  refine_from s seen i [] = []
  refine_from s seen i (x ∷ xs) =
      (if includes (s.key x) seen then custom i s.duplicate ∷ [] else [])
      ++ (map (custom i) (s.faults x) ++ refine_from s (s.key x ∷ seen) (suc i) xs)

  pub issues : Schema A → ℕ → ℕ → List A → List Issue
  unfolding size_issues field_issues refine_from
  issues s lo hi xs = size_issues lo hi xs ++ (field_issues s 0 xs ++ refine_from s [] 0 xs)

  -- `schema.parse` throws when there is an issue.
  abbrev settle : List Issue → List A → Result (List Issue) (List A)
  settle [] rows = ok rows
  settle (i ∷ is) rows = throw (i ∷ is)

  unfoldable pub parse : Schema A → ℕ → ℕ → List A → Result (List Issue) (List A)
  unfolding issues
  parse s lo hi xs = let rows = map s.normalize xs in settle (issues s lo hi rows) rows

-- The rows that a schema accepts, told without the loop.
pub record Accepts {A : Type 0} (s : Schema A) (lo hi : ℕ) (xs : List A) : Type 0 where
  pub at_least : lo ≤ length xs
  pub at_most : length xs ≤ hi
  pub fields : All (λ x. s.fields x ≡ true) xs
  pub unique : IsUnique s.key xs
  pub faults : All (λ x. s.faults x ≡ []) xs

module _ {ℓ} {A : Type ℓ} where
  append-eq-nil : (xs ys : List A) → xs ++ ys ≡ [] → (xs ≡ []) × (ys ≡ [])
  append-eq-nil [] ys h = (refl, h)
  append-eq-nil (x ∷ xs) ys h = cc

map-eq-nil : (i : ℕ) (ms : List String) → map (custom i) ms ≡ [] → ms ≡ []
map-eq-nil i [] h = refl
map-eq-nil i (m ∷ ms) h = cc

module _ {A : Type 0} where
  settle-ok :
      (is : List Issue) (rows ys : List A) → settle is rows ≡ ok ys → (is ≡ []) × (ys ≡ rows)
  settle-ok [] rows ys h = (refl, cc)
  settle-ok (i ∷ is) rows ys h = cc

module _ {A : Type 0} (s : Schema A) where
  field_issues-nil :
      (i : ℕ) (xs : List A) → field_issues s i xs ≡ [] → All (λ x. s.fields x ≡ true) xs
  unfolding field_issues
  field_issues-nil i [] h = tt
  field_issues-nil i (x ∷ xs) h = ground (arith, field_issues-nil (suc i) xs)

  field_issues-eq_nil :
      (i : ℕ) (xs : List A) → All (λ x. s.fields x ≡ true) xs → field_issues s i xs ≡ []
  unfolding field_issues
  field_issues-eq_nil i [] h = refl
  field_issues-eq_nil i (x ∷ xs) h = ground (arith, field_issues-eq_nil (suc i) xs h.1)

  -- The loop reports nothing exactly when no key repeats and no row has a fault.
  refine_from-nil :
      (seen : List Text) (i : ℕ) (xs : List A)
      → refine_from s seen i xs ≡ []
      → IsFresh seen s.key xs × IsUnique s.key xs × All (λ x. s.faults x ≡ []) xs
  unfolding refine_from
  refine_from-nil seen i [] h = (tt, tt, tt)
  refine_from-nil seen i (x ∷ xs) h =
      let (new, later) = append-eq-nil (if includes (s.key x) seen then _ else _) _ h in
      let (sound, rest) = append-eq-nil (map (custom i) (s.faults x)) _ later in
      let (fresh, unique, faults) = refine_from-nil (s.key x ∷ seen) (suc i) xs rest in
      (
        (ground arith, IsFresh-tail (s.key x) seen s.key xs fresh),
        (IsFresh-head (s.key x) seen s.key xs fresh, unique),
        (map-eq-nil i (s.faults x) sound, faults),
      )

  refine_from-eq_nil :
      (seen : List Text) (i : ℕ) (xs : List A)
      → IsFresh seen s.key xs
      → IsUnique s.key xs
      → All (λ x. s.faults x ≡ []) xs
      → refine_from s seen i xs ≡ []
  unfolding refine_from
  refine_from-eq_nil seen i [] f u h = refl
  refine_from-eq_nil seen i (x ∷ xs) f u h =
      rw (f.0, h.0)
        (refine_from-eq_nil (s.key x ∷ seen) (suc i) xs
          (IsFresh-cons (s.key x) seen s.key xs f.1 u.0) u.1 h.1)

  size_issues-nil :
      (lo hi : ℕ) (xs : List A) → size_issues lo hi xs ≡ [] → (lo ≤ length xs) × (length xs ≤ hi)
  unfolding size_issues
  size_issues-nil lo hi xs h = ground arith

  issues-nil : (lo hi : ℕ) (xs : List A) → issues s lo hi xs ≡ [] → Accepts s lo hi xs
  unfolding issues
  issues-nil lo hi xs h =
      let (size, later) = append-eq-nil (size_issues lo hi xs) _ h in
      let (field, rest) = append-eq-nil (field_issues s 0 xs) _ later in
      let (_, unique, faults) = refine_from-nil [] 0 xs rest in
      record {
        at_least = (size_issues-nil lo hi xs size).0;
        at_most = (size_issues-nil lo hi xs size).1;
        fields = field_issues-nil 0 xs field;
        unique = unique;
        faults = faults;
      }

  issues-eq_nil : (lo hi : ℕ) (xs : List A) → Accepts s lo hi xs → issues s lo hi xs ≡ []
  unfolding issues size_issues
  issues-eq_nil lo hi xs a =
      let field = field_issues-eq_nil 0 xs a.fields in
      let loop = refine_from-eq_nil [] 0 xs (IsFresh-nil s.key xs) a.unique a.faults in
      ground (arith, a.at_least, a.at_most, field, loop)

  -- A schema returns the normalised rows exactly when it accepts them, and throws otherwise.
  pub parse_iff :
      (lo hi : ℕ) (xs ys : List A)
      → (parse s lo hi xs ≡ ok ys) ↔ ((ys ≡ map s.normalize xs) × Accepts s lo hi ys)
  unfolding parse
  parse_iff lo hi xs ys = (forth, back)
    where
      forth : parse s lo hi xs ≡ ok ys → (ys ≡ map s.normalize xs) × Accepts s lo hi ys
      forth h =
          let (none_found, e) = settle-ok (issues s lo hi (map s.normalize xs)) _ ys h in
          (e, rw e (issues-nil lo hi _ none_found))

      back : (ys ≡ map s.normalize xs) × Accepts s lo hi ys → parse s lo hi xs ≡ ok ys
      back (e, a) = rw (issues-eq_nil lo hi (map s.normalize xs) (rw e at a)) (rw e)
