-- ===== src/Browser/Unit/Valid.antt =====
-- What holds of every state of the store, and what a handler keeps of it.
use mathlib.Core.List.{append-nil, append_assoc, map-append}
use mathlib.Core.Path.{subst}
use apm_repo_sdk_python.Base.{
  ◌∙◌, sym, inl, inr, some-cancel, Option-cases, ℕ, ◌+◌, ◌<◌, ◌≡◌, ◌≢◌, arith, Bool, true, List, [],
  ◌∷◌, ◌++◌, map, Option, none, some, All, All-append,
}
use apm_repo_sdk_python.Base.Dict.{
  Dict, Frozenset, lookup, insert, update, without, contains, add, remove, minus, lookup-insert,
  lookup-without, contains-add, contains-remove, contains-minus, lookup-update_kept,
  lookup-update_added, lookup-update_all, lookup-insert_hit, lookup-insert_miss,
}
use apm_repo_sdk_python.Browser.Keys.{RequestId}
use apm_repo_sdk_python.Browser.Unit.Children.{by_ref, loaded_children}
use apm_repo_sdk_python.Browser.Unit.Goto.{all_children, complete_level}
use apm_repo_sdk_python.Browser.Unit.Model.{
  UnitModel, UnitSlot, unit_slot_deceq, LoadedLevel, goto_slot, children_slot,
}
use apm_repo_sdk_python.Units.Node.{Node, NodeRef, node_ref_deceq}

-- No request in flight has a number that is still to be given out.
abbrev pub IsFresh : Dict UnitSlot RequestId → RequestId → Type 0
IsFresh inflight next = (s : UnitSlot) (r : RequestId) → lookup s inflight ≡ some r → r < next

-- A slot that is pending has a request in flight.
abbrev pub IsRunning : Frozenset UnitSlot → Dict UnitSlot RequestId → Type 0
IsRunning pending inflight = (s : UnitSlot) → contains s pending ≡ true → lookup s inflight ≢ none

abbrev pub Known : Dict NodeRef Node → Node → Type 0
Known node_index child = lookup child.ref node_index ≢ none

-- Every child of a loaded level is in the index.
abbrev pub IsIndexed : Dict NodeRef LoadedLevel → Dict NodeRef Node → Type 0
IsIndexed loaded node_index =
    (ref : NodeRef) (level : LoadedLevel)
    → lookup ref loaded ≡ some level
    → All (Known node_index) level.children

-- While no provider is held, nothing is loaded or loading but the provider itself.
abbrev pub IsDetached :
    Option Node → Dict NodeRef LoadedLevel → Frozenset UnitSlot → Dict UnitSlot RequestId → Type 0
IsDetached root loaded pending inflight =
    (root ≡ none)
    × (loaded ≡ [])
    × (pending ≡ [])
    × ((ref : NodeRef) → lookup (children_slot ref) inflight ≡ none)
    × (lookup goto_slot inflight ≡ none)

pub record IsValid (m : UnitModel) : Type 0 where
  pub fresh : IsFresh m.inflight m.next_request
  pub running : IsRunning m.pending m.inflight
  pub indexed : IsIndexed m.loaded m.node_index
  pub detached : m.provider ≡ none → IsDetached m.root m.loaded m.pending m.inflight

module _ (i : Dict UnitSlot RequestId) (n : RequestId) where
  pub IsFresh-insert : (s : UnitSlot) → IsFresh i n → IsFresh (insert s n i) (n + 1)
  IsFresh-insert s h = λ t r e. ground (arith, lookup-insert s t n i, h t r)

  pub IsFresh-without : (ks : Frozenset UnitSlot) → IsFresh i n → IsFresh (without ks i) n
  IsFresh-without ks h = λ t r e. ground (arith, lookup-without t ks i, h t r)

pub IsFresh-only : (s : UnitSlot) (n : RequestId) → IsFresh ((s, n) ∷ []) (n + 1)
unfolding lookup
IsFresh-only s n = λ t r e. ground arith

module _ (p : Frozenset UnitSlot) (i : Dict UnitSlot RequestId) where
  pub IsRunning-insert : (s : UnitSlot) (n : ℕ) → IsRunning p i → IsRunning p (insert s n i)
  IsRunning-insert s n h = λ t c. ground (arith, lookup-insert s t n i, h t c)

  pub IsRunning-add : (s : UnitSlot) (n : ℕ) → IsRunning p i → IsRunning (add s p) (insert s n i)
  IsRunning-add s n h = λ t c. ground (arith, lookup-insert s t n i, contains-add s t p, h t)

  pub IsRunning-remove : (s : UnitSlot) → IsRunning p i → IsRunning (remove s p) i
  IsRunning-remove s h = λ t c. ground (arith, contains-remove s t p, h t)

  pub IsRunning-minus :
      (ks : Frozenset UnitSlot) → IsRunning p i → IsRunning (minus p ks) (without ks i)
  IsRunning-minus ks h = λ t c. ground (arith, contains-minus t p ks, lookup-without t ks i, h t)

-- The index keeps the children that it has, and gains those that are added.
Known-kept :
    (x : Dict NodeRef Node) (more children : List Node)
    → All (Known x) children
    → All (Known (update x (by_ref more))) children
Known-kept x more [] h = tt
Known-kept x more (c ∷ children) h =
    (lookup-update_kept c.ref x (by_ref more) h.0, Known-kept x more children h.1)

Known-added :
    (x : Dict NodeRef Node) (before children after : List Node)
    → All (Known (update x (by_ref (before ++ (children ++ after))))) children
Known-added x before [] after = tt
Known-added x before (c ∷ children) after = (
  rw map-append (lookup-update_added x (by_ref before) c.ref c (by_ref (children ++ after))),
  subst (λ l. All (Known (update x (by_ref l))) children)
      (append_assoc before (c ∷ []) (children ++ after))
      (Known-added x (before ++ (c ∷ [])) children after),
)

Known-more : (x : Dict NodeRef Node) (more : List Node) → All (Known (update x (by_ref more))) more
Known-more x more =
    subst (λ l. All (Known (update x (by_ref l))) more) (append-nil more) (Known-added x [] more [])

module _ (loaded : Dict NodeRef LoadedLevel) (idx : Dict NodeRef Node)
    (h : IsIndexed loaded idx) where
  -- What `loaded` has stays known; the level that is put in brings its own children.
  pub IsIndexed-insert :
      (ref : NodeRef) (level : LoadedLevel) (more : List Node)
      → All (Known (update idx (by_ref more))) level.children
      → IsIndexed (insert ref level loaded) (update idx (by_ref more))
  IsIndexed-insert ref level more k = λ r l e. elim (node_ref_deceq.eq? ref r) [
    | yes p ↦
        subst (λ l. All (Known (update idx (by_ref more))) l.children)
          (some-cancel (sym (lookup-insert_hit ref r level loaded p) ∙ e)) k
    | no p ↦
        Known-kept idx more l.children (h r l (sym (lookup-insert_miss ref r level loaded p) ∙ e))
  ]

  pub IsIndexed-first :
      (ref : NodeRef) (children : List Node) (done : Bool)
      → IsIndexed
          (insert ref (record { children = children; exhausted = done }) loaded)
          (update idx (by_ref children))
  IsIndexed-first ref children done =
      IsIndexed-insert ref (record { children = children; exhausted = done }) children
        (Known-more idx children)

  old_children :
      (ref : NodeRef) (more : List Node)
      → All (Known (update idx (by_ref more))) (loaded_children (lookup ref loaded))
  old_children ref more = elim (Option-cases (lookup ref loaded)) [
    | inl gone ↦ rw gone tt
    | inr (level, there) ↦ rw there (Known-kept idx more level.children (h ref level there))
  ]

  pub IsIndexed-more :
      (ref : NodeRef) (more : List Node) (done : Bool)
      → IsIndexed
          (insert ref
            (record { children = loaded_children (lookup ref loaded) ++ more; exhausted = done })
            loaded)
          (update idx (by_ref more))
  IsIndexed-more ref more done =
      IsIndexed-insert ref
        (record { children = loaded_children (lookup ref loaded) ++ more; exhausted = done }) more
        (All-append (Known (update idx (by_ref more))) (loaded_children (lookup ref loaded)) more
          (old_children ref more) (Known-more idx more))

  abbrev KnownLevel : List Node → LoadedLevel → Type 0
  KnownLevel nodes level = All (Known (update idx (by_ref nodes))) level.children

  steps_known :
      (before : List Node) (steps : Dict NodeRef (List Node))
      → All
          (λ (p : NodeRef × LoadedLevel). KnownLevel (before ++ all_children steps) p.1)
          (map complete_level steps)
  steps_known before [] = tt
  steps_known before ((ref, children) ∷ steps) = (
    Known-added idx before children (all_children steps),
    subst (λ l. All (λ (p : NodeRef × LoadedLevel). KnownLevel l p.1) (map complete_level steps))
        (append_assoc before children (all_children steps))
        (steps_known (before ++ children) steps),
  )

  pub IsIndexed-steps :
      (steps : Dict NodeRef (List Node))
      → IsIndexed
          (update loaded (map complete_level steps))
          (update idx (by_ref (all_children steps)))
  IsIndexed-steps steps =
      lookup-update_all (KnownLevel (all_children steps)) loaded (map complete_level steps)
        (λ r l e. Known-kept idx (all_children steps) l.children (h r l e)) (steps_known [] steps)
