-- ===== src/Browser/Unit/Steps/Root.antt =====
-- The arrival of the root.
use native.Mathlib.Nat.{le_refl}
use apm_repo_sdk_python.Base.{refl, true, none, some, Option-cases, inl, inr}
use apm_repo_sdk_python.Browser.Keys.{Epoch, RequestId, ProviderHandle}
use apm_repo_sdk_python.Browser.Unit.Children.{on_root_loaded, start_goto, is_stale_for}
use apm_repo_sdk_python.Browser.Unit.Good.{
  Good, quiet-Good, Ensures, Ensures-map, returns, on_branch,
}
use apm_repo_sdk_python.Browser.Unit.Model.{UnitModel, unit_slot_deceq, provider_slot}
use apm_repo_sdk_python.Browser.Unit.Valid.{IsValid}
use apm_repo_sdk_python.Browser.Unit.Steps.Children.{start_goto-Good}
use apm_repo_sdk_python.Units.Node.{Node, node_ref_deceq}

abbrev rooted : UnitModel → ProviderHandle → Node → UnitModel
rooted m handle root = record m {
  provider = some handle;
  root = some root;
  root_error = none;
  selected = some root.ref;
}

rooted-IsValid :
    (m : UnitModel) (handle : ProviderHandle) (root : Node)
    → IsValid m
    → IsValid (rooted m handle root)
rooted-IsValid m handle root v = record {
  fresh = v.fresh;
  running = v.running;
  indexed = v.indexed;
  detached = λ e. cc;
}

-- The root arrives: with a goto that waited for it, its resolution starts.
pub on_root_loaded-Good :
    (m : UnitModel) (v : IsValid m) (e : Epoch) (r : RequestId) (handle : ProviderHandle)
    (root : Node)
    → Ensures (Good m) (on_root_loaded m e r handle root)
unfolding on_root_loaded start_goto
on_root_loaded-Good m v e r handle root =
    on_branch (is_stale_for m provider_slot e r) (λ _. returns (quiet-Good m refl (tt, tt) v))
      λ _. elim (Option-cases m.goto) [
        | inl idle ↦
            rw (idle, on_root_loaded)
              (returns (record {
                valid = rooted-IsValid m handle root v;
                issued = tt;
                epochs = le_refl _;
                requests = le_refl _;
              }))
        | inr (goto, waits) ↦
            simp (waits, on_root_loaded)
              (Ensures-map
                (λ n cmds g. record {
                  valid = g.valid;
                  issued = g.issued;
                  epochs = g.epochs;
                  requests = g.requests;
                })
                (start_goto-Good (rooted m handle root) (rooted-IsValid m handle root v)
                  (record { target = goto.target; root_expand_skipped = true })))
      ]
