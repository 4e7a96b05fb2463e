-- ===== src/Browser/Unit/Steps/Goto.antt =====
-- Gotos, the detail pane and the opening of a unit.
use native.Mathlib.Nat.{le_refl}
use apm_repo_sdk_python.Base.{
  ◌+◌, ◌≡◌, refl, arith, Bool, true, false, List, Option, none, some, ◌||◌, if◌then◌else◌,
}
use apm_repo_sdk_python.Base.Dict.{lookup, insert, lookup-insert, lookup-insert_hit}
use apm_repo_sdk_python.Browser.Keys.{ProviderHandle}
use apm_repo_sdk_python.Browser.Unit.Good.{
  Good, quiet-Good, Ensures, returns, on_option, Issued, IsValid-core,
}
use apm_repo_sdk_python.Browser.Unit.Goto.{
  on_goto_requested, on_detail_requested, on_unit_open_requested, was_skipped, idle_detail,
  detail_fetch, is_list_overview, is_loading,
}
use apm_repo_sdk_python.Browser.Unit.Model.{
  UnitModel, UnitCmd, unit_slot_deceq, UnitPurpose, detail_slot, goto_slot, unit_open_slot,
  children_slot, DetailBody,
}
use apm_repo_sdk_python.Browser.Unit.Steps.Children.{start_goto-Good}
use apm_repo_sdk_python.Browser.Unit.Valid.{IsValid, IsFresh-insert, IsRunning-insert}
use apm_repo_sdk_python.Units.Node.{Node, NodeRef, node_ref_deceq}

module _ {m : UnitModel} where
  pair_branch :
      (t : Bool) {x y : UnitModel × List UnitCmd}
      → Good m x.0 x.1
      → Good m y.0 y.1
      → Good m (if t then x else y).0 (if t then x else y).1
  pair_branch true h k = h
  pair_branch false h k = k

  pair_option :
      (o : Option ProviderHandle) {x : UnitModel × List UnitCmd}
      {f : ProviderHandle → UnitModel × List UnitCmd}
      → Good m x.0 x.1
      → ((a : ProviderHandle) → o ≡ some a → Good m (f a).0 (f a).1)
      → Good m
          (elim o as (λ y. UnitModel × List UnitCmd) [ none ↦ x | some a ↦ f a ]).0
          (elim o as (λ y. UnitModel × List UnitCmd) [ none ↦ x | some a ↦ f a ]).1
  pair_option none h k = h
  pair_option (some a) h k = k a refl

module _ (m : UnitModel) (v : IsValid m) where
  pub on_goto_requested-Good : (target : NodeRef) → Ensures (Good m) (on_goto_requested m target)
  unfolding on_goto_requested
  on_goto_requested-Good target =
      on_option m.provider (λ _. returns (quiet-Good m refl tt v))
        (λ handle held.
          start_goto-Good m v
            (record { target = target; root_expand_skipped = was_skipped m.goto }))

  pub on_unit_open_requested-Good :
      (node : Node) (purpose : UnitPurpose)
      → Ensures (Good m) (on_unit_open_requested m node purpose)
  unfolding on_unit_open_requested
  on_unit_open_requested-Good node purpose =
      on_option m.provider (λ _. returns (quiet-Good m refl tt v))
        λ handle held. returns (record {
          valid = record {
            fresh = IsFresh-insert m.inflight m.next_request unit_open_slot v.fresh;
            running = IsRunning-insert m.pending m.inflight unit_open_slot m.next_request v.running;
            indexed = v.indexed;
            detached = λ e. absurd (ground arith);
          };
          issued = (
            (
              (
                refl,
                lookup-insert_hit unit_open_slot unit_open_slot m.next_request m.inflight refl,
                le_refl _,
              ),
              held,
            ),
            tt,
          );
          epochs = le_refl _;
          requests = omega arith;
        })

  abbrev counted : UnitModel
  counted = record m {
    next_request = m.next_request + 1;
    inflight = insert detail_slot m.next_request m.inflight;
  }

  counted-IsValid : IsValid counted
  counted-IsValid = record {
    fresh = IsFresh-insert m.inflight m.next_request detail_slot v.fresh;
    running = IsRunning-insert m.pending m.inflight detail_slot m.next_request v.running;
    indexed = v.indexed;
    detached = λ e. (
      (v.detached e).0,
      (v.detached e).1,
      (v.detached e).2,
      λ ref. ground (
        arith,
        (v.detached e).3 ref,
        lookup-insert detail_slot (children_slot ref) m.next_request m.inflight,
      ),
      ground
          (arith, (v.detached e).4, lookup-insert detail_slot goto_slot m.next_request m.inflight),
    );
  }

  detail_fetch-Issued :
      (handle : ProviderHandle) (node : Node) (n : UnitModel)
      → n.epoch ≡ m.epoch
      → n.inflight ≡ insert detail_slot m.next_request m.inflight
      → n.provider ≡ some handle
      → Issued m n (detail_fetch counted m.next_request handle node)
  detail_fetch-Issued handle node n e i p =
      ground (arith, lookup-insert_hit detail_slot detail_slot m.next_request m.inflight refl)

  idle-Good :
      (was_loading : Bool) (node : Node)
      → Good m (idle_detail counted was_loading node).0 (idle_detail counted was_loading node).1
  idle-Good true node = record {
    valid = IsValid-core counted refl counted-IsValid;
    issued = (tt, tt);
    epochs = le_refl _;
    requests = omega arith;
  }
  idle-Good false node = record {
    valid = IsValid-core counted refl counted-IsValid;
    issued = tt;
    epochs = le_refl _;
    requests = omega arith;
  }

  pub on_detail_requested-Good :
      (node : Node) → Good m (on_detail_requested m node).0 (on_detail_requested m node).1
  unfolding on_detail_requested
  on_detail_requested-Good node =
      pair_branch (node.is_leaf || is_list_overview node.role)
        (pair_option m.provider (idle-Good (is_loading m.detail) node) λ handle held. record {
          valid = IsValid-core counted refl counted-IsValid;
          issued = (
            detail_fetch-Issued handle node
                (record counted {
                  detail = some (record { node = node; body = DetailBody.detail_loading });
                })
                refl refl held,
            tt,
          );
          epochs = le_refl _;
          requests = omega arith;
        })
        (idle-Good (is_loading m.detail) node)

-- The detail pane's request leaves every other slot, the epoch and the provider as they are.
pub on_detail_requested_kept :
    (m : UnitModel) (node : Node) (ref : NodeRef)
    → ((on_detail_requested m node).0.epoch ≡ m.epoch)
      × ((on_detail_requested m node).0.provider ≡ m.provider)
      × (lookup (children_slot ref) (on_detail_requested m node).0.inflight
          ≡ lookup (children_slot ref) m.inflight)
unfolding on_detail_requested
on_detail_requested_kept m node ref =
    ground (arith, lookup-insert detail_slot (children_slot ref) m.next_request m.inflight)
