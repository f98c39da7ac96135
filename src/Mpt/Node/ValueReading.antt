-- ===== src/Mpt/Node/ValueReading.antt =====
-- How the values of database/mpt/nodes.go are read at their places in a storage trie.
use carmen.Prelude.{
  ℕ, ◌+◌, ◌%◌, ◌≡◌, ◌≢◌, refl, List, ◌++◌, true, false, none, some, length, length-append,
  append_assoc, arith, subst, sym, ◌∙◌, ap, Bool-cases, inl, inr, ◌==◌, comparable_nat, nat_beq_iff,
}
use carmen.Mpt.Node.{
  Config, Node, NodeBase, account, branch, bytes_beq_iff, comparable_bytes, empty, extension,
  path_of, value,
}
use carmen.Mpt.Node.Leaf.{set_path_length}
use carmen.Mpt.Node.Shape.{AreNibbles-append, IsReading, is_leaf, relengthen}
use carmen.Mpt.Node.Valid.{AreNibbles, IsPlaced, IsValueLeaf}
use carmen.Mpt.Node.Values.{find_value}

pub IsPlaced-moved :
    (config : Config) (size below : ℕ) (prefix mid key : List ℕ) (len new : ℕ)
    → size ≡ length mid + below
    → AreNibbles mid
    → IsPlaced config below (prefix ++ mid) key len
    → (config.track_suffix_lengths ≡ true → new ≡ size % 256)
    → IsPlaced config size prefix key new
IsPlaced-moved config size below prefix mid key len new s nibbles (rest, e, l, own, _) tracked = (
  mid ++ rest,
  e ∙ append_assoc prefix mid rest,
  omega (arith, length-append mid rest),
  AreNibbles-append mid rest nibbles own,
  tracked,
)

pub IsPlaced-apart :
    (config : Config) (size : ℕ) (prefix key other : List ℕ) (len : ℕ)
    → IsPlaced config size prefix key len
    → ((rest : List ℕ) → path_of config other ≢ prefix ++ rest)
    → (key == other) ≡ false
IsPlaced-apart config size prefix key other len (rest, e, _, _, _) away =
    elim (Bool-cases (key == other)) [
      | inl t ↦ absurd (away rest (ap (path_of config) (sym ((bytes_beq_iff key other).0 t)) ∙ e))
      | inr f ↦ f
    ]

-- A key whose path is another's is another key.
pub apart-equal :
    (config : Config) (key other : List ℕ)
    → path_of config other ≢ path_of config key
    → (key == other) ≡ false
apart-equal config key other d = elim (Bool-cases (key == other)) [
  | inl t ↦ absurd (d (ap (path_of config) (sym ((bytes_beq_iff key other).0 t))))
  | inr f ↦ f
]

relengthen-value :
    (config : Config) (n : NodeBase) (key : List ℕ) (word len size : ℕ)
    → (m : NodeBase) × (new : ℕ) × (relengthen config (value n key word len) size
        ≡ value m key word new)
      × (config.track_suffix_lengths ≡ true → new ≡ size % 256)
unfolding relengthen set_path_length
relengthen-value config n key word len size = elim (Bool-cases config.track_suffix_lengths) [
  | inl t ↦ elim (Bool-cases (len == size % 256)) [
    | inl same ↦ rw (t, same) (n, len, refl, λ _. (nat_beq_iff len (size % 256)).0 same)
    | inr f ↦ rw (t, f) (_, size % 256, refl, λ _. refl)
  ]
  | inr f ↦ rw f (n, len, refl, λ e. absurd (ground arith))
]

value-moved :
    (config : Config) (size below : ℕ) (prefix mid : List ℕ) (node : Node)
    → size ≡ length mid + below
    → AreNibbles mid
    → IsValueLeaf config below (prefix ++ mid) node
    → IsValueLeaf config size prefix (relengthen config node size)
unfolding IsValueLeaf
value-moved config size below prefix mid empty s nibbles l = absurd l
value-moved config size below prefix mid (branch n children hashes) s nibbles l = absurd l
value-moved config size below prefix mid (extension n own next hash) s nibbles l = absurd l
value-moved config size below prefix mid (account n address info storage hash len) s nibbles l =
    absurd l
value-moved config size below prefix mid (value n key word len) s nibbles (z, placed) =
    let (m, new, e, tracked) = relengthen-value config n key word len size in
    subst (IsValueLeaf config size prefix) (sym e)
      (z, IsPlaced-moved config size below prefix mid key len new s nibbles placed tracked)

-- A value that is not zero is a leaf at each place on its key's path.
pub value-placed :
    (config : Config) (n : NodeBase) (key : List ℕ) (word len : ℕ)
    → word ≢ 0
    → (size : ℕ) (prefix rest : List ℕ) → path_of config key ≡ prefix ++ rest
    → length rest ≡ size
    → AreNibbles rest
    → IsValueLeaf config size prefix (relengthen config (value n key word len) size)
unfolding IsValueLeaf
value-placed config n key word len z size prefix rest e l nibbles =
    let (m, new, made, tracked) = relengthen-value config n key word len size in
    subst (IsValueLeaf config size prefix) (sym made) (z, (rest, e, l, nibbles, tracked))

value-found-moved :
    (config : Config) (k : List ℕ) (node : Node) (len : ℕ)
    → find_value k (relengthen config node len) ≡ find_value k node
unfolding find_value relengthen set_path_length
value-found-moved config k empty len = ground arith
value-found-moved config k (branch n children hashes) len = ground arith
value-found-moved config k (extension n own next hash) len = ground arith
value-found-moved config k (account n address info storage hash own) len = ground arith
value-found-moved config k (value n key word own) len = ground arith

value-misplaced :
    (config : Config) (size : ℕ) (prefix : List ℕ) (node : Node) (k : List ℕ)
    → IsValueLeaf config size prefix node
    → ((rest : List ℕ) → path_of config k ≢ prefix ++ rest)
    → find_value k node ≡ some none
unfolding IsValueLeaf find_value
value-misplaced config size prefix empty k l away = absurd l
value-misplaced config size prefix (branch n children hashes) k l away = absurd l
value-misplaced config size prefix (extension n own next hash) k l away = absurd l
value-misplaced config size prefix (account n address info storage hash len) k l away = absurd l
value-misplaced config size prefix (value n key word len) k (z, placed) away =
    rw (IsPlaced-apart config size prefix key k len placed away) refl

value-is_leaf :
    (config : Config) (size : ℕ) (prefix : List ℕ) (node : Node)
    → IsValueLeaf config size prefix node
    → is_leaf node ≡ true
unfolding IsValueLeaf is_leaf
value-is_leaf config size prefix empty l = absurd l
value-is_leaf config size prefix (branch n children hashes) l = absurd l
value-is_leaf config size prefix (extension n own next hash) l = absurd l
value-is_leaf config size prefix (account n address info storage hash len) l = refl
value-is_leaf config size prefix (value n key word len) l = refl

pub values-IsReading :
    (config : Config) → IsReading config (IsValueLeaf config) (path_of config) find_value
values-IsReading config = record {
  misplaced = value-misplaced config;
  moved = value-moved config;
  found-moved = value-found-moved config;
  is_leaf_lem = value-is_leaf config;
}
