-- ===== src/ObjPool/Lists.antt =====
-- What ObjPool of knv/obj_pool.h promises: a list of objects in the hands of a caller and the free
-- objects, the one that is handed out next in front.
use mysql_proxy.Common.{ℕ, ◌≡◌, ◌≢◌, List, [], ◌∷◌, ◌++◌, Option, none, some, update}
use mysql_proxy.ObjPool.Objects.{
  ObjPool, Held, new_alone, new_last, new_front, delete_alone, delete, detach, delete_all,
}
use mysql_proxy.Common.Removed.{NotIn, Distinct, Removed}
use mysql_proxy.Common.Rings.{Links, Ring}

pub record Lists {ℓ} (A : Type ℓ) : Type ℓ where
  pub listed : List ℕ
  pub free : List ℕ
  pub content : ℕ → A

-- The calls: New(), New(first) and NewFront with what `new` finds, Delete(obj), Delete(first, obj),
-- Detach and DeleteAll.
pub data Call : Type 0 where
  create : Option ℕ → Call
  append : Option ℕ → Call
  prepend : Option ℕ → Call
  give_back : ℕ → Call
  erase : ℕ → Call
  take_off : ℕ → Call
  clear_all : Call

module _ {ℓ} {A : Type ℓ} (blank : A) (release : A → A) where
  -- The contents of the objects of a list, one after the other released.
  abbrev pub released : List ℕ → (ℕ → A) → ℕ → A
  released [] c = c
  released (x ∷ xs) c = released xs (update c x (release (c x)))

  -- The free object in front, or a new one at an address that is not in use.
  pub data Obtains (fresh : Option ℕ) (s : Lists A) : ℕ → Lists A → Type ℓ where
    reused : (f : ℕ) (fs : List ℕ) → s.free ≡ f ∷ fs → Obtains fresh s f (record s { free = fs })
    grown :
        (a : ℕ)
        → fresh ≡ some a
        → s.free ≡ []
        → NotIn a (0 ∷ s.listed)
        → Obtains fresh s a (record s { content = update s.content a blank })

  -- A call, with the object that it returns. DeleteAll is for a list that is not empty.
  pub data Does (s : Lists A) : Call → Option ℕ → Lists A → Type ℓ where
    created :
        {fresh : Option ℕ} {o : ℕ} {s' : Lists A}
        → Obtains fresh s o s'
        → Does s (create fresh) (some o) s'
    appended :
        {fresh : Option ℕ} {o : ℕ} {s' : Lists A}
        → Obtains fresh s o s'
        → Does s (append fresh) (some o) (record s' { listed = s'.listed ++ o ∷ [] })
    prepended :
        {fresh : Option ℕ} {o : ℕ} {s' : Lists A}
        → Obtains fresh s o s'
        → Does s (prepend fresh) (some o) (record s' { listed = o ∷ s'.listed })
    none_created : s.free ≡ [] → Does s (create none) none s
    none_appended : s.free ≡ [] → Does s (append none) none s
    none_prepended : s.free ≡ [] → Does s (prepend none) none s
    given_back :
        (o : ℕ)
        → NotIn o (0 ∷ s.listed ++ s.free)
        → Does s
            (give_back o)
            none
            (record s { free = o ∷ s.free; content = update s.content o (release (s.content o)) })
    erased :
        (o : ℕ) (xs : List ℕ)
        → Removed o s.listed xs
        → Does s (erase o) none (record {
          listed = xs;
          free = o ∷ s.free;
          content = update s.content o (release (s.content o));
        })
    taken_off :
        (o : ℕ) (xs : List ℕ)
        → Removed o s.listed xs
        → Does s (take_off o) none (record s { listed = xs })
    cleared :
        s.listed ≢ []
        → Does s clear_all none (record {
          listed = [];
          free = s.listed ++ s.free;
          content = released s.listed s.content;
        })

  abbrev pub with_pool : Held A → Option ℕ × ObjPool A → Option ℕ × Held A
  with_pool h (o, m) = (o, record h { pool = m })

  abbrev pub returns_none : Option (Held A) → Option (Option ℕ × Held A)
  returns_none none = none
  returns_none (some h) = some (none, h)

  -- The function of the source for each call.
  unfoldable pub execute : (rounds : ℕ) → Call → Held A → Option (Option ℕ × Held A)
  execute rounds (create fresh) h = some (with_pool h (new_alone blank release fresh h.pool))
  execute rounds (append fresh) h = some (new_last blank release fresh h)
  execute rounds (prepend fresh) h = some (new_front blank release fresh h)
  execute rounds (give_back o) h =
      some (none, record h { pool = delete_alone blank release h.pool o })
  execute rounds (erase o) h = some (none, delete blank release h o)
  execute rounds (take_off o) h = some (none, detach blank release h o)
  execute rounds clear_all h = returns_none (delete_all blank release rounds h)

-- The objects in memory are linked as the lists are, and no object stands in both or twice.
pub record Represents {ℓ} {A : Type ℓ} (h : Held A) (s : Lists A) : Type ℓ where
  pub ring : Ring h.pool.next h.pool.prev h.first s.listed
  pub unused : Links h.pool.next s.free h.pool.obj_freelist 0
  pub same : h.pool.content ≡ s.content
  pub apart : Distinct (0 ∷ s.listed ++ s.free)
