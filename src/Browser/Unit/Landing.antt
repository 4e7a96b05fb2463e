-- ===== src/Browser/Unit/Landing.antt =====
-- core/unit/update.py: where a chain of nodes ends, and where the tree lands for it.
use mathlib.Core.List.{append_assoc}
use apm_repo_sdk_python.Base.{
  ◌≡◌, ◌≢◌, ◌∙◌, refl, sym, ap, inl, inr, Bool-cases, Bool, true, false, List, [], ◌∷◌, ◌++◌,
  Option, none, some, if◌then◌else◌,
}
use apm_repo_sdk_python.Browser.Keys.{RequestId}
use apm_repo_sdk_python.Browser.Unit.Goto.{chain_end, landing_of}
use apm_repo_sdk_python.Browser.Unit.Model.{Landing, unit_slot_deceq}
use apm_repo_sdk_python.Units.Node.{Node, node_ref_deceq}

-- Where the tree lands for a chain of nodes from the root: on the last node where it is a folder,
-- else on the leaf in the folder before it, which is expanded; a chain of one leaf lands on that.
pub data LandsAt (chain : List Node) (request : RequestId) : Node → Landing → Type 0 where
  at_folder :
      (before : List Node) (last : Node)
      → chain ≡ before ++ (last ∷ [])
      → last.is_leaf ≡ false
      → LandsAt chain request last
          (record { request = request; folder = last.ref; leaf = none; expand = false })
  at_leaf :
      (before : List Node) (parent last : Node)
      → chain ≡ before ++ (parent ∷ last ∷ [])
      → last.is_leaf ≡ true
      → LandsAt chain request last
          (record { request = request; folder = parent.ref; leaf = some last.ref; expand = true })
  at_lone_leaf :
      (last : Node)
      → chain ≡ last ∷ []
      → last.is_leaf ≡ true
      → LandsAt chain request last
          (record { request = request; folder = last.ref; leaf = none; expand = false })

-- A chain ends with a node, after its parent where there is one.
pub data EndsWith (chain : List Node) (target : Node) : Option Node → Type 0 where
  alone : chain ≡ target ∷ [] → EndsWith chain target none
  under :
      (before : List Node) (parent : Node)
      → chain ≡ before ++ (parent ∷ target ∷ [])
      → EndsWith chain target (some parent)

last_two :
    (first second : Node) (rest : List Node)
    → (before : List Node) × (parent : Node) × (target : Node) × (first ∷ second ∷ rest
        ≡ before ++ (parent ∷ target ∷ []))
      × (chain_end (first ∷ second ∷ rest) ≡ some (target, some parent))
last_two first second [] = ([], first, second, refl, refl)
last_two first second (third ∷ rest) =
    let (before, parent, target, parts, ends) = last_two second third rest in
    (first ∷ before, parent, target, ap (λ nodes. first ∷ nodes) parts, ends)

pub chain_end-EndsWith :
    (chain : List Node)
    → chain ≢ []
    → (target : Node) × (parent : Option Node) × (chain_end chain ≡ some (target, parent))
      × EndsWith chain target parent
chain_end-EndsWith [] h = absurd (h refl)
chain_end-EndsWith (target ∷ []) h = (target, none, refl, alone refl)
chain_end-EndsWith (first ∷ second ∷ rest) h =
    let (before, parent, target, parts, ends) = last_two first second rest in
    (target, some parent, ends, under before parent parts)

chosen-LandsAt :
    {chain : List Node} {request : RequestId} {target : Node} (b : Bool) (x y : Node × Landing)
    → (b ≡ true → LandsAt chain request target x.1)
    → (b ≡ false → LandsAt chain request target y.1)
    → LandsAt chain request target (if b then x else y).1
chosen-LandsAt true x y h k = h refl
chosen-LandsAt false x y h k = k refl

pub landing_of-LandsAt :
    (chain : List Node) (request : RequestId) (target : Node) (parent : Option Node)
    → EndsWith chain target parent
    → LandsAt chain request target (landing_of request target parent).1
landing_of-LandsAt chain request target none (alone e) = elim (Bool-cases target.is_leaf) [
  | inl leaf ↦ at_lone_leaf target e leaf
  | inr folder ↦ at_folder [] target e folder
]
landing_of-LandsAt chain request target (some parent) (under before _ e) =
    chosen-LandsAt target.is_leaf _ _ (at_leaf before parent target e) (λ folder.
      at_folder (before ++ (parent ∷ [])) target
        (e ∙ sym (append_assoc before (parent ∷ []) (target ∷ []))) folder)
