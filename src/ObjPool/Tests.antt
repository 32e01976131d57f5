-- ===== src/ObjPool/Tests.antt =====
-- Examples on the lists of objects.
use mysql_proxy.Common.{
  ◌==◌, ◌≢◌, false, update, ℕ, suc, ◌≡◌, refl, List, [], ◌∷◌, Option, none, some, arith,
}
use mathlib.Core.List.{cons-ne-nil}
use mysql_proxy.ObjPool.Objects.{ObjPool, Held}
use mysql_proxy.Common.Removed.{Distinct, here, there}
use mysql_proxy.ObjPool.Lists.{
  Lists, Call, append, prepend, erase, clear_all, appended, prepended, erased, cleared, reused,
  grown, released, Represents,
}
use mysql_proxy.Common.Rings.{Ring}
use mysql_proxy.ObjPool.Histories.{Runs, stop, call, Follows, run-refines}

-- Objects that count how often they were released.
abbrev empty : Held ℕ
empty = record {
  first = 0;
  pool = record { prev = λ _. 0; next = λ _. 0; content = λ _. 0; obj_freelist = 0 };
}

abbrev no_objects : Lists ℕ
no_objects = record { listed = []; free = []; content = λ _. 0 }

empty-Represents : Represents empty no_objects
empty-Represents = record { ring = refl; unused = refl; same = refl; apart = (tt, tt) }

abbrev calls : List Call
calls =
    append (some 5)
    ∷ append (some 7)
    ∷ prepend (some 9)
    ∷ erase 7
    ∷ clear_all
    ∷ append (some 11)
    ∷ []

abbrev seen : List (Option ℕ)
seen = some 5 ∷ some 7 ∷ some 9 ∷ none ∷ none ∷ some 9 ∷ []

abbrev one_content : ℕ → ℕ
one_content = update (λ _. 0) 5 0

abbrev three_content : ℕ → ℕ
three_content = update (update one_content 7 0) 9 0

abbrev left_content : ℕ → ℕ
left_content = released 0 suc (9 ∷ 5 ∷ []) (update three_content 7 (suc (three_content 7)))

abbrev one_listed : Lists ℕ
one_listed = record { listed = 5 ∷ []; free = []; content = one_content }

abbrev two_listed : Lists ℕ
two_listed = record { listed = 5 ∷ 7 ∷ []; free = []; content = update one_content 7 0 }

abbrev three_listed : Lists ℕ
three_listed = record { listed = 9 ∷ 5 ∷ 7 ∷ []; free = []; content = three_content }

ne : (a b : ℕ) → (a == b) ≡ false → a ≢ b
ne a b h = ground arith

-- The object released last is handed out again.
calls-Runs :
    Runs 0 suc calls seen no_objects
      (record { listed = 9 ∷ []; free = 5 ∷ 7 ∷ []; content = left_content })
calls-Runs = call {s' = one_listed} (appended (grown 5 refl refl (ne 5 0 refl, tt))) (
    call {s' = two_listed} (appended (grown 7 refl refl (ne 7 0 refl, (ne 7 5 refl, tt)))) (
      call {s' = three_listed}
        (prepended (grown 9 refl refl (ne 9 0 refl, (ne 9 5 refl, (ne 9 7 refl, tt)))))
        (call (erased 7 (9 ∷ 5 ∷ []) (there 9 (there 5 here))) (
          call (cleared (cons-ne-nil 9 (5 ∷ [])))
            (call (appended (reused 9 (5 ∷ 7 ∷ []) refl)) (stop _))))))

run-refines_example :
    Follows 0 suc 6 calls empty seen
      (record { listed = 9 ∷ []; free = 5 ∷ 7 ∷ []; content = left_content })
run-refines_example =
    run-refines 0 suc 6 calls seen empty no_objects _ empty-Represents calls-Runs (omega arith)

-- A list of two objects, with its last object taken off, and with one more.
abbrev two : ObjPool ℕ
two = record {
  prev = update (update (λ _. 0) 5 7) 7 5;
  next = update (λ _. 0) 5 7;
  content = λ _. 0;
  obj_freelist = 0;
}

two-Ring : Ring two.next two.prev 5 (5 ∷ 7 ∷ [])
unfolding update
two-Ring = (refl, (refl, refl), refl, (refl, tt))

two-Distinct : Distinct (0 ∷ 5 ∷ 7 ∷ [])
two-Distinct = ((ne 0 5 refl, (ne 0 7 refl, tt)), ((ne 5 7 refl, tt), (tt, tt)))
