-- ===== src/Browser/Unit/Total.antt =====
-- core/unit/update.py: which events raise an exception, and which are handled without one.
use mathlib.Core.Path.{subst}
use apm_repo_sdk_python.Base.{
  sym, ◌∙◌, ◌≡◌, ◌≢◌, refl, arith, Bool, true, false, List, [], ◌∷◌, Option, none, some, none_some,
  if◌then◌else◌, Option-cases, inl, inr,
}
use apm_repo_sdk_python.Base.Dict.{Dict, update as update_dict, lookup}
use apm_repo_sdk_python.Browser.Keys.{Epoch, RequestId, ProviderHandle, is_stale_iff}
use apm_repo_sdk_python.Browser.Unit.Children.{
  Outcome, next_request, on_root_requested, on_root_loaded, start_goto, on_children_loaded,
  on_children_load_failed, load_more, on_load_more_requested, on_more_children_loaded,
  on_more_children_load_failed, is_stale_for,
}
use apm_repo_sdk_python.Browser.Unit.Goto.{
  on_goto_requested, on_goto_resolved, goto_ended_unlanded, on_unit_open_requested, chain_end, land,
  landing_of, with_steps, zip_steps,
}
use apm_repo_sdk_python.Browser.Unit.Model.{
  UnitModel, UnitMsg, LoadedLevel, unit_slot_deceq, provider_slot, detail_slot, goto_slot,
  unit_open_slot, children_slot, has_pending_children,
}
use apm_repo_sdk_python.Browser.Unit.Update.{update}
use apm_repo_sdk_python.Browser.Unit.Valid.{IsValid}
use apm_repo_sdk_python.Errors.{raise, Error}
use apm_repo_sdk_python.Units.Node.{NodeRef, Node, node_ref_deceq}
use apm_repo_sdk_python.Browser.Unit.Raises.{
  fault, Ends, returned, raised, Returns, branch, held, Returns-bind, option, select_folder-Returns,
  select_folder-Ends, on_children_requested-Ends,
}

attached :
    (ref : NodeRef) {loaded : Dict NodeRef LoadedLevel} {level : LoadedLevel}
    → loaded ≡ []
    → lookup ref loaded ≡ some level
    → ⊥
unfolding lookup
attached ref {level = level} empty there =
    absurd (none_some (subst (λ d. lookup ref d ≡ some level) empty there))

load_more-Returns :
    (m : UnitModel) (node : Node) → IsValid m → Returns (on_load_more_requested m node)
unfolding on_load_more_requested load_more lookup
load_more-Returns m node v = elim (Option-cases (lookup node.ref m.loaded)) [
  | inl nothing ↦ rw (nothing, on_load_more_requested) returned
  | inr (level, there) ↦
      rw (there, on_load_more_requested)
        (branch level.exhausted returned (λ _.
          branch (has_pending_children m node.ref) returned (λ _.
            held m (λ gone. attached node.ref (v.detached gone).1 there) (λ handle. returned))))
]

chain_end-some : (chain : List Node) → chain ≢ [] → chain_end chain ≢ none
chain_end-some [] h = λ e. h refl
chain_end-some (target ∷ []) h = λ e. cc
chain_end-some (parent ∷ target ∷ []) h = λ e. cc
chain_end-some (first ∷ second ∷ third ∷ rest) h = chain_end-some (second ∷ third ∷ rest) (λ e. cc)

on_root_loaded-Returns :
    (m : UnitModel) (e : Epoch) (r : RequestId) (handle : ProviderHandle) (root : Node)
    → Returns (on_root_loaded m e r handle root)
unfolding on_root_loaded start_goto
on_root_loaded-Returns m e r handle root =
    branch (is_stale_for m provider_slot e r) returned
      λ _. option m.goto (λ _. returned) (λ goto. returned)

land-Returns :
    (m : UnitModel) (request : RequestId) (target : Node) (parent : Option Node)
    → m.provider ≢ none
    → Returns (land m request target parent)
unfolding land
land-Returns m request target parent h =
    Returns-bind _
      (select_folder-Returns (record m { landing = some (landing_of request target parent).1 })
        (landing_of request target parent).0 h)
      (λ r. returned)

awaited-Returns :
    (m : UnitModel) (e : Epoch) (r : RequestId) (chain : List Node) (steps : List (List Node))
    → IsValid m
    → chain ≢ []
    → is_stale_for m goto_slot e r ≡ false
    → Returns (elim (chain_end chain) as (λ o. Outcome) [
      | none ↦ raise Error.index_error
      | some ends ↦ land (with_steps m (update_dict [] (zip_steps chain steps))) r ends.0 ends.1
    ])
unfolding with_steps
awaited-Returns m e r chain steps v h fits =
    option (chain_end chain) (λ none_left. absurd (chain_end-some chain h none_left))
      λ ends.
        land-Returns (with_steps m (update_dict [] (zip_steps chain steps))) r ends.0 ends.1
          (λ gone. absurd (
            ground (
              arith,
              (v.detached gone).4,
              ((is_stale_iff m.epoch m.inflight goto_slot e r).0 fits).1,
            )))

pub on_goto_resolved-Returns :
    (m : UnitModel) (e : Epoch) (r : RequestId) (chain : List Node) (steps : List (List Node))
    → IsValid m
    → chain ≢ []
    → Returns (on_goto_resolved m e r chain steps)
unfolding on_goto_resolved
on_goto_resolved-Returns m e r chain steps v h =
    branch (is_stale_for m goto_slot e r) returned (awaited-Returns m e r chain steps v h)

on_goto_requested-Returns : (m : UnitModel) (target : _) → Returns (on_goto_requested m target)
unfolding on_goto_requested
on_goto_requested-Returns m target = elim (Option-cases m.provider) [
  | inl gone ↦ rw (gone, on_goto_requested) returned
  | inr (handle, there) ↦
      rw (there, on_goto_requested)
        (held (next_request m).1 (λ gone. absurd (none_some (sym gone ∙ there))) (λ h. returned))
]

on_unit_open_requested-Returns :
    (m : UnitModel) (node : Node) (purpose : _) → Returns (on_unit_open_requested m node purpose)
unfolding on_unit_open_requested
on_unit_open_requested-Returns m node purpose =
    option m.provider (λ _. returned) (λ handle. returned)

-- A goto's result is out of date, or it ends as its chain tells.
fresh_Ends :
    (t : Bool) {f : Option Error} {x y : Outcome}
    → Returns x
    → (t ≡ false → Ends f y)
    → Ends (if t then none else f) (if t then x else y)
fresh_Ends true h k = h
fresh_Ends false h k = k refl

on_goto_resolved-Ends :
    (m : UnitModel) (e : Epoch) (r : RequestId) (chain : List Node) (steps : List (List Node))
    → IsValid m
    → Ends (fault m (UnitMsg.goto_resolved e r chain steps)) (on_goto_resolved m e r chain steps)
unfolding on_goto_resolved
on_goto_resolved-Ends m e r [] steps v =
    fresh_Ends (is_stale_for m goto_slot e r) returned (λ _. raised)
on_goto_resolved-Ends m e r (node ∷ chain) steps v =
    fresh_Ends (is_stale_for m goto_slot e r) returned
      (awaited-Returns m e r (node ∷ chain) steps v (λ p. cc))

-- In a valid model, an event raises the assertion exactly where no provider is held while a
-- folder's children are asked for or a flat category is selected, and IndexError exactly where an
-- awaited goto brings no nodes. Every other event is handled without an exception, results that
-- are out of date too.
pub update-Ends : (m : UnitModel) (msg : UnitMsg) → IsValid m → Ends (fault m msg) (update m msg)
unfolding update on_root_requested on_children_loaded on_children_load_failed
    on_more_children_loaded on_more_children_load_failed goto_ended_unlanded
update-Ends m (UnitMsg.root_loaded e r handle root) v = on_root_loaded-Returns m e r handle root
update-Ends m (UnitMsg.root_load_failed e r message) v =
    branch (is_stale_for m provider_slot e r) returned (λ _. returned)
update-Ends m (UnitMsg.children_requested node) v = on_children_requested-Ends m node m.selected v
update-Ends m (UnitMsg.children_loaded e r ref children done) v =
    branch (is_stale_for m (children_slot ref) e r) returned (λ _. returned)
update-Ends m (UnitMsg.children_load_failed e r ref message) v =
    branch (is_stale_for m (children_slot ref) e r) returned (λ _. returned)
update-Ends m (UnitMsg.load_more_requested node) v = load_more-Returns m node v
update-Ends m (UnitMsg.more_children_loaded e r ref more done) v =
    branch (is_stale_for m (children_slot ref) e r) returned (λ _. returned)
update-Ends m (UnitMsg.more_children_load_failed e r ref message) v =
    branch (is_stale_for m (children_slot ref) e r) returned (λ _. returned)
update-Ends m (UnitMsg.goto_requested target) v = on_goto_requested-Returns m target
update-Ends m (UnitMsg.goto_resolved e r chain steps) v = on_goto_resolved-Ends m e r chain steps v
update-Ends m (UnitMsg.goto_not_found e r) v =
    branch (is_stale_for m goto_slot e r) returned (λ _. returned)
update-Ends m (UnitMsg.goto_failed e r message) v =
    branch (is_stale_for m goto_slot e r) returned (λ _. returned)
update-Ends m (UnitMsg.unit_open_requested node purpose) v =
    on_unit_open_requested-Returns m node purpose
update-Ends m (UnitMsg.unit_opened e r unit purpose) v =
    branch (is_stale_for m unit_open_slot e r) returned (λ _. returned)
update-Ends m (UnitMsg.unit_open_failed e r message) v =
    branch (is_stale_for m unit_open_slot e r) returned (λ _. returned)
update-Ends m (UnitMsg.folder_selected folder) v = select_folder-Ends m folder v
update-Ends m (UnitMsg.detail_resolved e r body) v =
    branch (is_stale_for m detail_slot e r) returned (λ _. returned)
update-Ends m (UnitMsg.root_requested invalidate force_raw) v = returned
update-Ends m (UnitMsg.filter_opened ref) v = returned
update-Ends m (UnitMsg.filter_text_changed text) v = returned
update-Ends m UnitMsg.filter_closed v = returned
update-Ends m (UnitMsg.detail_requested node) v = returned
update-Ends m (UnitMsg.verbose_set verbose) v = returned
