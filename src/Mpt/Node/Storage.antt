-- ===== src/Mpt/Node/Storage.antt =====
-- The storage tries of database/mpt/nodes.go as maps from keys to values.
use carmen.Prelude.{
  ℕ, ◌≡◌, refl, List, [], true, ◌||◌, Option, none, some, if◌then◌else◌, length, subst, sym, ◌∙◌,
  ap, ◌==◌, comparable_nat,
}
use carmen.Mpt.Node.{Config, Node, Outcome, comparable_bytes, comparable_info, empty, path_of}
use carmen.Mpt.Node.Effect.{IsEffect}
use carmen.Mpt.Node.Valid.{AreNibbles, IsStorage, IsValueLeaf}
use carmen.Mpt.Node.ValueEffect.{
  after_write, create_value-IsEffect, create_value-nonempty, update_value-IsEffect, write-absent,
  write-elsewhere,
}
use carmen.Mpt.Node.ValueReading.{values-IsReading}
use carmen.Mpt.Node.Values.{create_value, find_value, get_value, set_value, update_value}
use carmen.Mpt.Node.Walk.{get_below}
use carmen.Mpt.Node.WalkEffect.{set_below-IsEffect}

-- What a usable configuration is: where the lengths of suffixes are not tracked the hashing is direct,
-- and different addresses or keys have different paths.
abbrev pub IsUsable : Config → Type 0
IsUsable config =
    ((config.track_suffix_lengths || config.direct_hashing) ≡ true)
    × ((a b : List ℕ) → path_of config a ≡ path_of config b → a ≡ b)

-- A key or an address with a path of the trie's depth.
abbrev pub HasPath : Config → ℕ → List ℕ → Type 0
HasPath config size key = (length (path_of config key) ≡ size) × AreNibbles (path_of config key)

pub same_root : {r : Option Outcome} (p o : Outcome) → r ≡ some p → r ≡ some o → p.root ≡ o.root
same_root p o e f = ap outcome_root (sym e ∙ f)
  where
    outcome_root : Option Outcome → Node
    outcome_root none = empty
    outcome_root (some q) = q.root

set_value_lem :
    (config : Config) (key : List ℕ) (word size : ℕ) (node : Node)
    → IsUsable config
    → IsStorage config size [] node
    → HasPath config size key
    → (o : Outcome) × (set_value config key word node (path_of config key) ≡ some o)
      × IsEffect
          (IsValueLeaf config)
          (path_of config)
          find_value
          (after_write key word)
          size
          []
          node
          o
unfolding set_value
set_value_lem config key word size node (hashing, injective) t (l, nibbles) =
    set_below-IsEffect config (IsValueLeaf config) (path_of config) find_value
      (values-IsReading config) (after_write key word) (path_of config key)
      (write-elsewhere config key word) (word == 0) (write-absent config key word)
      (create_value key word) (create_value-IsEffect config key word)
      (create_value-nonempty config key word) (update_value config key word)
      (update_value-IsEffect config key word hashing injective) node size [] (path_of config key) t
      refl l nibbles

-- In a configuration whose paths are those of one address or key only, and which tracks the
-- lengths of suffixes or hashes directly: SetValue succeeds on a well-formed storage trie, and its
-- result is well-formed: branches have two children, extensions lead to branches, and values are
-- at their places, not zero, with the right path lengths.
pub set_value-IsStorage :
    (config : Config) (key : List ℕ) (word size : ℕ) (node : Node)
    → IsUsable config
    → IsStorage config size [] node
    → HasPath config size key
    → (o : Outcome) × (set_value config key word node (path_of config key) ≡ some o)
      × IsStorage config size [] o.root
unfolding IsEffect
set_value-IsStorage config key word size node usable t h =
    let (o, made, effect) = set_value_lem config key word size node usable t h in
    (o, made, effect.0)

-- In a configuration whose paths are those of one address or key only, and which tracks the
-- lengths of suffixes or hashes directly: after a SetValue of a key that returns on a well-formed
-- storage trie, GetValue gives the value for that key, nothing if it is zero, and for every other
-- key what it gave before.
pub get_value-set_value :
    (config : Config) (key other : List ℕ) (word size : ℕ) (node : Node) (o : Outcome)
    → IsUsable config
    → IsStorage config size [] node
    → HasPath config size key
    → HasPath config size other
    → set_value config key word node (path_of config key) ≡ some o
    → get_value other o.root (path_of config other) ≡ (
        if key == other
        then some (if word == 0 then none else some word)
        else get_value other node (path_of config other))
unfolding IsEffect get_value
get_value-set_value config key other word size node o usable t h g made =
    let (p, made2, effect) = set_value_lem config key word size node usable t h in
    let roots : p.root ≡ o.root = same_root p o made2 made in
    subst
      (λ root.
        get_below (find_value other) root (path_of config other)
        ≡ after_write key word other (get_below (find_value other) node (path_of config other)))
      roots (effect.3 other (path_of config other) refl g.0)
