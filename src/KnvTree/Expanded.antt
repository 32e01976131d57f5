-- ===== src/KnvTree/Expanded.antt =====
-- InnerExpand of knv/knv_node.cc: a value made of fields becomes the subnodes of an expanded node.
use mysql_proxy.Common.{
  ℕ, suc, ◌+◌, ◌≤◌, ◌≡◌, sym, ap, ◌∙◌, Bool, false, ◌&&◌, ◌||◌, not, Option, some, List, [], ◌∷◌,
  ◌++◌, append_assoc, length, length-append, ◌==◌, if_false, arith, Ret, ret,
}
use mathlib.Core.Path.{subst}
use mysql_proxy.Pb.Types.{Run, ok, Field, get_i32, wt_string}
use mysql_proxy.Pb.Reader.{pb_begin, pb_next}
use mysql_proxy.Pb.Reader.Decode.{pb_next-field_bytes}
use mysql_proxy.Pb.Reader.Ends.{pb_begin-pb_next}
use mysql_proxy.KnvTree.Node.{Members, KnvTree, node, Trees, nil, has_key}
use mysql_proxy.KnvTree.Wire.{key_wire, wire, body}
use mysql_proxy.KnvTree.Open.{message, Open, Open-wire}
use mysql_proxy.KnvTree.Expand.{
  blank_field, Subnodes, expand_loop, finish_expand, begin_expand, is_expanded, inner_expand,
}
use mysql_proxy.KnvTree.Fields.{SubField, bytes_of, all_bytes, metas_of, children_of, AllMade}
use mysql_proxy.KnvTree.Expanding.{LoopMade, expand_loop-LoopMade, field_some}
use mysql_proxy.KnvTree.Unread.{Folded, made_body, expanded_members, expanded-Open}

-- What InnerExpand makes of such a node: an expanded node with right sizes, of which the subnodes stand
-- for the fields, the metas and the children apart, and which still stands for the same bytes.
pub record Expanded (d : Members) (fs : List SubField) (r : Option (Ret × KnvTree)) : Type 0 where
  pub metas : Trees
  pub children : Trees
  pub result : r ≡ some (ret 0, node (expanded_members d (length (children_of fs))) metas children)
  pub metas_made : AllMade (metas_of fs) metas
  pub children_made : AllMade (children_of fs) children
  pub open_node : Open (expanded_members d (length (children_of fs))) metas children
  pub body : body (expanded_members d (length (children_of fs))) metas children ≡ all_bytes fs
  pub bytes :
      wire (node (expanded_members d (length (children_of fs))) metas children)
      ≡ message d.tag (all_bytes fs)

-- A field has a byte at least, so that the rounds are enough.
fields_length : (fs : List SubField) → length fs ≤ length (all_bytes fs)
fields_length [] = omega arith
fields_length (s ∷ ss) =
    omega (arith, length-append (bytes_of s) (all_bytes ss), field_some s, fields_length ss)

module _ (d : Members) (s : SubField) (ss : List SubField) (rest : List ℕ) (force : Bool)
    (nodes : ℕ) (f : Folded d (s ∷ ss) rest) (some_nodes : length (s ∷ ss) ≤ nodes) where
  -- The iterator as knv_begin sets it.
  abbrev begun : Field
  begun = record blank_field { start = d.val.str_data; size = get_i32 d.val }

  abbrev first_run : Run Field (Unit {0})
  first_run = pb_next (record begun { ptr = d.val.str_data; left = get_i32 d.val })

  abbrev loop : Run Field (Unit {0}) → Subnodes
  loop run = expand_loop (suc (get_i32 d.val)) force nodes d.val.str_data run

  looped : LoopMade (s ∷ ss) (loop first_run)
  looped =
      subst
        (λ xs. LoopMade (s ∷ ss) (
          expand_loop (suc (get_i32 d.val)) force nodes xs
            (pb_next (record begun { ptr = xs; left = get_i32 d.val }))))
        (sym f.bytes)
        (subst
          (λ n. LoopMade (s ∷ ss) (
            expand_loop (suc n) force nodes (all_bytes (s ∷ ss) ++ rest)
              (pb_next (record begun { ptr = all_bytes (s ∷ ss) ++ rest; left = n }))))
          (sym f.len)
          (expand_loop-LoopMade (s ∷ ss) begun rest force (suc (length (all_bytes (s ∷ ss)))) nodes
            f.fields f.short.0 (omega (arith, fields_length (s ∷ ss))) some_nodes))

  -- There is a first field.
  first_field : (g : Field) × (first_run ≡ ok tt g)
  first_field =
      let behind = all_bytes ss ++ rest in
      let at : d.val.str_data ≡ bytes_of s ++ behind =
        f.bytes ∙ append_assoc (bytes_of s) (all_bytes ss) rest in
      let left : get_i32 d.val ≡ length (bytes_of s) + length (all_bytes ss) =
        f.len ∙ length-append (bytes_of s) (all_bytes ss) in
      let found =
        pb_next-field_bytes begun s.tag s.type (length (all_bytes ss)) s.val behind f.fields.0
          f.fields.1 in
      (_, (λ i. pb_next (record begun { ptr = at i; left = left i })) ∙ found.result)

  begun_result :
      begin_expand d force nodes (pb_begin blank_field d.val.str_data (get_i32 d.val))
      ≡ some (
        ret 0,
        node (expanded_members d (length (children_of (s ∷ ss)))) looped.metas looped.children,
      )
  unfolding begin_expand finish_expand
  begun_result =
      ap (begin_expand d force nodes)
        (pb_begin-pb_next blank_field d.val.str_data (get_i32 d.val) ∙ first_field.1)
      ∙ ap (λ m. finish_expand d (loop m)) (sym first_field.1)
      ∙ ap (finish_expand d) looped.result

  -- InnerExpand of a node that is not expanded, with known sizes, whose value is made of fields with
  -- the metas in front of the children and its key in front of them, where the pool has a node for
  -- each field and the node is not a key itself, returns 0 and makes a node of each field, the metas and
  -- the children in their order; the sizes of the node and of the subnodes are right, and the node
  -- stands for the same bytes.
  pub inner_expand-Expanded :
      (parent_has_key : Bool)
      → ((d.tag == 1) && parent_has_key) ≡ false
      → Expanded d (s ∷ ss) (inner_expand parent_has_key force nodes d nil nil)
  unfolding inner_expand key_wire has_key
  inner_expand-Expanded parent_has_key no_key_node =
      let d' = expanded_members d (length (children_of (s ∷ ss))) in
      let open_node =
        expanded-Open d s ss rest looped.metas looped.children f looped.metas_made
          looped.children_made in
      let same =
        made_body d' (s ∷ ss) looped.metas looped.children f.key_first f.ordered looped.metas_made
          looped.children_made in
      record {
        metas = looped.metas;
        children = looped.children;
        result =
            if_false _ _ (ap is_expanded f.folded)
            ∙ if_false _ _ (opens d.type f.is_string no_key_node)
            ∙ begun_result;
        metas_made = looped.metas_made;
        children_made = looped.children_made;
        open_node = open_node;
        body = same;
        bytes = Open-wire d' looped.metas looped.children open_node ∙ ap (message d.tag) same;
      }
    where
      opens :
          (t : ℕ)
          → t ≡ 2
          → ((d.tag == 1) && parent_has_key) ≡ false
          → (not (t == wt_string) || ((d.tag == 1) && parent_has_key)) ≡ false
      opens t e h = ground (arith, e, h)
