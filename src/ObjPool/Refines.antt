-- ===== src/ObjPool/Refines.antt =====
-- ObjPool of knv/obj_pool.h against the lists that it stands for.
use mysql_proxy.Common.{
  ℕ, ◌≤◌, ◌≡◌, refl, sym, ap, List, [], ◌∷◌, ◌++◌, append_assoc, Option, some, All, length,
}
use mathlib.Core.Path.{subst}
use mysql_proxy.ObjPool.Objects.{
  ObjPool, Held, detached, new_alone, link_new, link_last, link_first, new_last, new_front, unlink,
  delete, detach,
}
use mysql_proxy.Common.Removed.{
  NotIn, Distinct, Removed, here, there, Removed-append, Removed-middle, Distinct-Removed,
  Distinct-inserted, Distinct-append,
}
use mysql_proxy.ObjPool.Linking.{link_last-Listed, link_first-Listed}
use mysql_proxy.ObjPool.Unlinking.{unlink-Listed}
use mysql_proxy.ObjPool.Lists.{
  Lists, Call, Does, created, appended, prepended, none_created, none_appended, none_prepended,
  given_back, erased, taken_off, cleared, execute, with_pool, returns_none, Represents,
}
use mysql_proxy.ObjPool.Taking.{Listed-Represents, Obtains-From, obtain-none}
use mysql_proxy.ObjPool.Returning.{
  Represents-update, delete_alone-Represents, delete_all-Represents,
}

module _ {ℓ} {A : Type ℓ} (blank : A) (release : A → A) where
  -- What a call returns and leaves stands for what the lists become.
  pub record Agrees (rounds : ℕ) (c : Call) (h : Held A) (r : Option ℕ) (s : Lists A) : Type ℓ where
    pub left : Held A
    pub returns : execute blank release rounds c h ≡ some (r, left)
    pub represents : Represents left s

  -- An object that is in no list is put into the list.
  away_from :
      (o : ℕ) (xs fs : List ℕ)
      → NotIn o fs
      → All (λ y. NotIn y xs) fs
      → All (λ y. NotIn y (o ∷ xs)) fs
  away_from o xs [] out apart = tt
  away_from o xs (y ∷ fs) out apart =
      ((λ e. out.0 (sym e), apart.0), away_from o xs fs out.1 apart.1)

  module _ (first : ℕ) (m : ObjPool A) (o : ℕ) (s : Lists A)
      (r : Represents (record { first = first; pool = m }) s)
      (out : NotIn o (0 ∷ s.listed ++ s.free)) where
    joined : Distinct (0 ∷ o ∷ s.listed ++ s.free)
    joined = Distinct-inserted (there 0 here) out r.apart

    ring_apart : Distinct (0 ∷ o ∷ s.listed)
    ring_apart = (Distinct-append (0 ∷ o ∷ s.listed) s.free joined).0

    free_apart : All (λ y. NotIn y (o ∷ s.listed)) s.free
    free_apart = (Distinct-append (o ∷ s.listed) s.free joined.1).2

    link_last-Represents :
        Represents (link_last blank release o first m) (record s { listed = s.listed ++ o ∷ [] })
    link_last-Represents =
        Listed-Represents m s.content (o ∷ s.listed) (s.listed ++ o ∷ []) s.free _
          (link_last-Listed blank release m o first s.listed r.ring ring_apart) r.unused r.same
          free_apart
          (subst (λ k. Distinct (0 ∷ k)) (sym (append_assoc s.listed (o ∷ []) s.free))
            (Distinct-inserted (there 0 (Removed-middle o s.listed s.free)) out r.apart))

    link_first-Represents :
        Represents (link_first blank release o first m) (record s { listed = o ∷ s.listed })
    link_first-Represents =
        Listed-Represents m s.content (o ∷ s.listed) (o ∷ s.listed) s.free _
          (link_first-Listed blank release m o first s.listed r.ring ring_apart) r.unused r.same
          free_apart joined

  -- The lists when an object is taken off.
  module _ (h : Held A) (s : Lists A) (o : ℕ) (xs : List ℕ) (r : Represents h s)
      (off : Removed o s.listed xs) where
    unlink-Represents : Represents (unlink blank release h o) (record s { listed = xs })
    unlink-Represents =
        let (d, _, apart) = Distinct-append (0 ∷ s.listed) s.free r.apart in
        let (_, _, away) = Distinct-append s.listed s.free r.apart.1 in
        Listed-Represents h.pool s.content s.listed xs s.free _
          (unlink-Listed blank release h.pool o h.first off r.ring d) r.unused r.same away
          (Distinct-Removed (there 0 (Removed-append s.free off)) r.apart).1

    off_alone : NotIn o (0 ∷ xs ++ s.free)
    off_alone = (Distinct-Removed (there 0 (Removed-append s.free off)) r.apart).0

  -- Every call that the lists allow returns, in as many rounds as the list has objects, the object
  -- that the lists say, and leaves the lists that they say linked in memory.
  pub execute-refines :
      (rounds : ℕ) (c : Call) (h : Held A) (s s' : Lists A) (o : Option ℕ)
      → Represents h s
      → Does blank release s c o s'
      → length s.listed ≤ rounds
      → Agrees rounds c h o s'
  unfolding execute new_alone detached new_last new_front link_new delete detach
  execute-refines rounds c h s s' o r (created {o = a} obtains) enough =
      let t = Obtains-From blank release h obtains r in
      record {
        left = _;
        returns =
            ap (λ k. some (with_pool blank release h (detached blank release h.pool k))) t.gives;
        represents = Represents-update blank release _ _ a 0 a t.rest t.alone;
      }
  execute-refines rounds c h s s' o r (appended {o = a} obtains) enough =
      let t = Obtains-From blank release h obtains r in
      record {
        left = _;
        returns = ap (λ k. some (link_new blank release (link_last blank release) h k)) t.gives;
        represents = link_last-Represents h.first t.pool a _ t.rest t.alone;
      }
  execute-refines rounds c h s s' o r (prepended {o = a} obtains) enough =
      let t = Obtains-From blank release h obtains r in
      record {
        left = _;
        returns = ap (λ k. some (link_new blank release (link_first blank release) h k)) t.gives;
        represents = link_first-Represents h.first t.pool a _ t.rest t.alone;
      }
  execute-refines rounds c h s s' o r (none_created free) enough = record {
    left = h;
    returns =
        ap (λ k. some (with_pool blank release h (detached blank release h.pool k)))
          (obtain-none blank release h s free r);
    represents = r;
  }
  execute-refines rounds c h s s' o r (none_appended free) enough = record {
    left = h;
    returns =
        ap (λ k. some (link_new blank release (link_last blank release) h k))
          (obtain-none blank release h s free r);
    represents = r;
  }
  execute-refines rounds c h s s' o r (none_prepended free) enough = record {
    left = h;
    returns =
        ap (λ k. some (link_new blank release (link_first blank release) h k))
          (obtain-none blank release h s free r);
    represents = r;
  }
  execute-refines rounds c h s s' o r (given_back a out) enough = record {
    left = _;
    returns = refl;
    represents = delete_alone-Represents blank release h s a r out;
  }
  execute-refines rounds c h s s' o r (erased a xs off) enough = record {
    left = _;
    returns = refl;
    represents =
        delete_alone-Represents blank release (unlink blank release h a) (record s { listed = xs })
          a (unlink-Represents h s a xs r off) (off_alone h s a xs r off);
  }
  execute-refines rounds c h s s' o r (taken_off a xs off) enough = record {
    left = _;
    returns = refl;
    represents =
        Represents-update blank release (unlink blank release h a) (record s { listed = xs }) a 0 0
          (unlink-Represents h s a xs r off) (off_alone h s a xs r off);
  }
  execute-refines rounds c h s s' o r (cleared some_listed) enough =
      let (h', e, r') = delete_all-Represents blank release rounds h s r enough some_listed in
      record { left = h'; returns = ap (returns_none blank release) e; represents = r' }
