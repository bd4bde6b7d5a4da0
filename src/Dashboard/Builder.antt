-- ===== src/Dashboard/Builder.antt =====
-- The drafts of dashboard/components/PipelineBuilder.tsx: how nodes and their dependencies are
-- edited, and the mask that is sent for a node. The amounts and deadlines, which are floating point
-- numbers of the form, are left out.
pub mod Laws
use chainpipe.Base.{
  ℕ, zero, suc, ◌+◌, ◌%◌, ◌-◌, ◌^◌, List, [], ◌∷◌, ◌++◌, Bool, true, false, ◌||◌, Option, none,
  some, ltb, ◌==◌, if◌then◌else◌, map,
}
use chainpipe.Base.Int.{ℤ, pos, negsuc}
use chainpipe.Base.Text.{Text, codes}
use chainpipe.Dashboard.Masks.{set_bit}

pub record Draft : Type 0 where
  pub id : ℕ
  pub skill : Text
  pub tier : ℕ
  pub deps : List ℕ
  pub description : Text
  pub input_uri : Text

-- The state of the component that these operations read and write.
pub record Builder : Type 0 where
  pub nodes : List Draft
  pub next_id : ℕ
  pub selected : Option ℕ

-- `nodes.findIndex((n) => n.id === id)`, from index i on.
abbrev pub find_index : ℕ → List Draft → ℕ → Option ℕ
find_index id [] i = none
find_index id (n ∷ nodes) i =
    let rest = find_index id nodes (suc i) in if n.id == id then some i else rest

abbrev pub idx : List Draft → ℕ → Option ℕ
idx nodes id = find_index id nodes 0

abbrev pub includes : List ℕ → ℕ → Bool
includes [] d = false
includes (e ∷ deps) d = e == d || includes deps d

-- `deps.filter((d) => d !== id)`
abbrev pub without : ℕ → List ℕ → List ℕ
without id [] = []
without id (d ∷ deps) = let rest = without id deps in if d == id then rest else d ∷ rest

abbrev pub new_draft : ℕ → Draft
new_draft id = record {
  id = id;
  skill = codes "data-fetch";
  tier = 1;
  deps = [];
  description = [];
  input_uri = [];
}

unfoldable pub add_node : Builder → Builder
add_node b = record {
  nodes = b.nodes ++ new_draft b.next_id ∷ [];
  next_id = suc b.next_id;
  selected = some b.next_id;
}

abbrev pub without_draft : ℕ → List Draft → List Draft
without_draft id [] = []
without_draft id (n ∷ nodes) =
    let rest = without_draft id nodes in
    if n.id == id then rest else record n { deps = without id n.deps } ∷ rest

unfoldable pub remove_node : ℕ → Builder → Builder
remove_node id b = record b { nodes = without_draft id b.nodes; selected = none }

abbrev pub toggled : ℕ → Draft → Draft
toggled dep n = record n {
  deps = if includes n.deps dep then without dep n.deps else n.deps ++ dep ∷ [];
}

abbrev pub toggle_in : ℕ → ℕ → List Draft → List Draft
toggle_in id dep [] = []
toggle_in id dep (n ∷ nodes) =
    let rest = toggle_in id dep nodes in if n.id == id then toggled dep n ∷ rest else n ∷ rest

unfoldable pub toggle_dep : ℕ → ℕ → Builder → Builder
toggle_dep id dep b = record b { nodes = toggle_in id dep b.nodes }

-- `if (di >= 0 && di < idx(n.id)) mask |= 1 << di`; a shift counts modulo 32.
abbrev pub add_dep : Option ℕ → Option ℕ → ℕ → ℕ
add_dep (some di) (some own) mask = if ltb di own then set_bit mask (di % 32) else mask
add_dep _ _ mask = mask

abbrev pub add_deps : List Draft → Option ℕ → List ℕ → ℕ → ℕ
add_deps nodes own [] mask = mask
add_deps nodes own (d ∷ deps) mask = add_deps nodes own deps (add_dep (idx nodes d) own mask)

-- The 32 bits of the mask.
unfoldable pub mask_bits : List Draft → Draft → ℕ
mask_bits nodes n = add_deps nodes (idx nodes n.id) n.deps 0

-- The number that they stand for, `dependencyMask`: the highest bit is the sign.
unfoldable pub sent_mask : List Draft → Draft → ℤ
sent_mask nodes n =
    let bits = mask_bits nodes n in
    if ltb bits (2 ^ 31) then pos bits else negsuc (2 ^ 32 - 1 - bits)
