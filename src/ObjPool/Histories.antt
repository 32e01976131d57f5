-- ===== src/ObjPool/Histories.antt =====
-- ObjPool of knv/obj_pool.h through the calls of a program, one after the other.
use mysql_proxy.Common.{
  ℕ, suc, ◌+◌, ◌≤◌, ◌≡◌, refl, ap, ◌∙◌, List, [], ◌∷◌, arith, Option, none, some, length,
  length-append,
}
use mysql_proxy.ObjPool.Objects.{Held}
use mysql_proxy.Common.Removed.{Removed, here, there}
use mysql_proxy.ObjPool.Lists.{
  Lists, Call, Obtains, reused, grown, Does, created, appended, prepended, none_created,
  none_appended, none_prepended, given_back, erased, taken_off, cleared, execute, Represents,
}
use mysql_proxy.ObjPool.Refines.{execute-refines}

module _ {ℓ} {A : Type ℓ} (blank : A) (release : A → A) where
  -- The calls and what they return.
  pub data Runs : List Call → List (Option ℕ) → Lists A → Lists A → Type ℓ where
    stop : (s : Lists A) → Runs [] [] s s
    call :
        {c : Call} {o : Option ℕ} {cs : List Call} {os : List (Option ℕ)} {s s' s'' : Lists A}
        → Does blank release s c o s'
        → Runs cs os s' s''
        → Runs (c ∷ cs) (o ∷ os) s s''

  abbrev with_result :
      Option ℕ → Option (List (Option ℕ) × Held A) → Option (List (Option ℕ) × Held A)
  with_result o none = none
  with_result o (some (os, h)) = some (o ∷ os, h)

  abbrev continue_with :
      (Held A → Option (List (Option ℕ) × Held A))
      → Option (Option ℕ × Held A)
      → Option (List (Option ℕ) × Held A)
  continue_with go none = none
  continue_with go (some (o, h)) = with_result o (go h)

  -- The functions of the source, called one after the other.
  unfoldable pub run : (rounds : ℕ) → List Call → Held A → Option (List (Option ℕ) × Held A)
  run rounds [] h = some ([], h)
  run rounds (c ∷ cs) h = continue_with (run rounds cs) (execute blank release rounds c h)

  -- A call makes the list longer by one object at most.
  Obtains-listed :
      {fresh : Option ℕ} {o : ℕ} {s s' : Lists A}
      → Obtains blank release fresh s o s'
      → s'.listed ≡ s.listed
  Obtains-listed (reused f fs free) = refl
  Obtains-listed (grown a found free out) = refl

  length-Removed : {o : ℕ} {xs xs' : List ℕ} → Removed o xs xs' → length xs ≡ suc (length xs')
  length-Removed here = refl
  length-Removed (there x r) = ap suc (length-Removed r)

  Does-length :
      {c : Call} {o : Option ℕ} {s s' : Lists A}
      → Does blank release s c o s'
      → length s'.listed ≤ suc (length s.listed)
  Does-length (created obtains) = omega (arith, ap (λ xs. length xs) (Obtains-listed obtains))
  Does-length (appended {o} {s' = t} obtains) =
      omega (arith, ap (λ xs. length xs) (Obtains-listed obtains), length-append t.listed (o ∷ []))
  Does-length (prepended obtains) = omega (arith, ap (λ xs. length xs) (Obtains-listed obtains))
  Does-length (none_created free) = omega arith
  Does-length (none_appended free) = omega arith
  Does-length (none_prepended free) = omega arith
  Does-length (given_back o out) = omega arith
  Does-length (erased o xs r) = omega (arith, length-Removed r)
  Does-length (taken_off o xs r) = omega (arith, length-Removed r)
  Does-length (cleared inner) = omega arith

  -- What a program sees of the pool, and the pool that it leaves.
  pub record Follows (rounds : ℕ) (cs : List Call) (h : Held A) (os : List (Option ℕ)) (s : Lists A)
      : Type ℓ where
    pub left : Held A
    pub returns : run rounds cs h ≡ some (os, left)
    pub represents : Represents left s

  -- A pool and a list that are linked in memory, with no object twice, follow every history of calls that the lists allow, and return what
  -- the lists say, where DeleteAll has as many rounds as the list has objects and the history calls.
  pub run-refines :
      (rounds : ℕ) (cs : List Call) (os : List (Option ℕ)) (h : Held A) (s s' : Lists A)
      → Represents h s
      → Runs cs os s s'
      → length s.listed + length cs ≤ rounds
      → Follows rounds cs h os s'
  unfolding run
  run-refines rounds cs os h s s' r (stop _) enough = record {
    left = h;
    returns = refl;
    represents = r;
  }
  run-refines rounds cs os h s s' r (call {c} {o} {cs = later} {os = seen} {s' = t} does runs)
        enough =
      let one = execute-refines blank release rounds c h s t o r does (omega arith) in
      let rest =
        run-refines rounds later seen one.left t s' one.represents runs
          (omega (arith, Does-length does)) in
      record {
        left = rest.left;
        returns =
            ap (continue_with (run rounds later)) one.returns ∙ ap (with_result o) rest.returns;
        represents = rest.represents;
      }
