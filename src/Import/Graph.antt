-- ===== src/Import/Graph.antt =====
-- include/DeepForge/Import/SerializedGraph.h and `validate_graph_references` of
-- lib/Import/SerializedGraphImporter.cpp: the imported graph, and the check of its references. A
-- std::map is the list of its entries in the order of their keys.
pub mod Order
use deep_forge.Base.{
  ℕ, zero, suc, ◌+◌, ◌≡◌, ◌↔◌, refl, ap, Bool, true, false, not, ◌&&◌, Option, none, some, List, [],
  ◌∷◌, ◌++◌, map, Text, text, to_string, is_empty, contains, Eq, eq_of_==, ==-refl, ◌==◌, ℤ, int_eq,
  list_eq, nat_eq, if◌then◌else◌, arith,
}
use deep_forge.Import.Status.{
  Result, Status, Error, ok, err, ◌>>=◌, ◌>>◌, reject, or_fail, fail, invalid_value, missing_uid,
}
use deep_forge.Import.DataTypes.{DataType}
use deep_forge.Import.OperationTags.{OperationTag}

pub data TensorReference : Type 0 where
  by_uid : ℤ → TensorReference
  by_name : Text → TensorReference

unfoldable pub reference_beq : TensorReference → TensorReference → Bool
reference_beq (by_uid a) (by_uid b) = a == b
reference_beq (by_name a) (by_name b) = a == b
reference_beq (by_uid a) (by_name b) = false
reference_beq (by_name a) (by_uid b) = false

reference_beq→eq : (x y : TensorReference) → reference_beq x y ≡ true → x ≡ y
unfolding reference_beq
reference_beq→eq (by_uid a) (by_uid b) h = ap by_uid (eq_of_== a b h)
reference_beq→eq (by_name a) (by_name b) h = ap by_name (eq_of_== a b h)
reference_beq→eq (by_uid a) (by_name b) h = cc
reference_beq→eq (by_name a) (by_uid b) h = cc

reference_beq_refl : (x : TensorReference) → reference_beq x x ≡ true
unfolding reference_beq
reference_beq_refl (by_uid a) = ==-refl a
reference_beq_refl (by_name a) = ==-refl a

pub reference_beq_iff : (x y : TensorReference) → (reference_beq x y ≡ true) ↔ (x ≡ y)
reference_beq_iff x y = (reference_beq→eq x y, λ p. rw p (reference_beq_refl y))

instance abbrev pub reference_eq : Eq TensorReference
reference_eq = record { beq = reference_beq; beq_iff = reference_beq_iff }

-- The fields that the check of the references does not read are left out of the next records.
pub record TensorDesc : Type 0 where
  pub name : Text
  pub is_virtual : Bool

pub record ConvFpropDesc : Type 0 where
  pub x_uid : ℤ
  pub w_uid : ℤ
  pub y_uid : ℤ

pub record GenericOperationDesc : Type 0 where
  pub inputs : List (Text × TensorReference)
  pub input_lists : List (Text × List TensorReference)
  pub outputs : List (Text × TensorReference)

pub data OperationAttributes : Type 0 where
  no_attributes : OperationAttributes
  conv_fprop_desc : ConvFpropDesc → OperationAttributes
  generic_desc : GenericOperationDesc → OperationAttributes

pub record SerializedGraph : Type 0 where
  pub tensors : List (ℤ × TensorDesc)
  pub named_tensors : List (Text × TensorDesc)
  pub nodes : List OperationAttributes

unfoldable pub child_path : Text → Text → Text
child_path path child = if is_empty path then child else path ++ (text "." ++ child)

unfoldable pub index_path : Text → ℕ → Text
index_path path index = path ++ (text "[" ++ (to_string index ++ text "]"))

-- `find` of a map
abbrev pub find_key : {K V : Type 0} ⦃e : Eq K⦄ → K → List (K × V) → Option V
find_key key [] = none
find_key key ((k, v) ∷ rest) = if key == k then some v else find_key key rest

unfoldable pub find_tensor : SerializedGraph → TensorReference → Option TensorDesc
find_tensor g (by_uid uid) = find_key uid g.tensors
find_tensor g (by_name name) = find_key name g.named_tensors

-- The producers so far: the references that `producers` has as keys. The index of the node, which
-- nothing reads, is left out.
abbrev pub Producers : Type 0
Producers = List TensorReference

unfoldable pub check_reference : SerializedGraph → TensorReference → Text → Result TensorDesc
check_reference g reference path =
    or_fail (find_tensor g reference)
      (fail missing_uid path (text "tensor reference is absent from tensors"))

unfoldable pub add_producer :
    SerializedGraph → Producers → TensorReference → Text → Result Producers
add_producer g producers reference path = do
  tensor ← check_reference g reference path
  reject (contains reference producers)
      (fail invalid_value path (text "tensor has more than one producing node"))
  ok (reference ∷ producers)

unfoldable pub check_input : SerializedGraph → Producers → TensorReference → Text → Status
check_input g producers reference path = do
  tensor ← check_reference g reference path
  reject (tensor.is_virtual && not (contains reference producers))
      (fail invalid_value path (text "virtual tensor must be produced by an earlier node"))

unfoldable pub check_inputs :
    SerializedGraph → Producers → Text → List (Text × TensorReference) → Status
check_inputs g producers path [] = ok tt
check_inputs g producers path ((port, reference) ∷ rest) = do
  check_input g producers reference (child_path (child_path path (text "inputs")) port)
  check_inputs g producers path rest

unfoldable pub check_input_list :
    SerializedGraph → Producers → Text → ℕ → List TensorReference → Status
check_input_list g producers path index [] = ok tt
check_input_list g producers path index (reference ∷ rest) = do
  check_input g producers reference (index_path path index)
  check_input_list g producers path (index + 1) rest

unfoldable pub check_input_lists :
    SerializedGraph → Producers → Text → List (Text × List TensorReference) → Status
check_input_lists g producers path [] = ok tt
check_input_lists g producers path ((name, references) ∷ rest) = do
  check_input_list g producers (child_path path name) 0 references
  check_input_lists g producers path rest

unfoldable pub add_producers :
    SerializedGraph → Producers → Text → List (Text × TensorReference) → Result Producers
add_producers g producers path [] = ok producers
add_producers g producers path ((port, reference) ∷ rest) = do
  further ← add_producer g producers reference (child_path (child_path path (text "outputs")) port)
  add_producers g further path rest

-- One round of the loop over the nodes.
unfoldable pub check_node :
    SerializedGraph → Producers → Text → OperationAttributes → Result Producers
check_node g producers path no_attributes =
    err (fail invalid_value path (text "node has no canonical attributes"))
check_node g producers path (conv_fprop_desc conv) = do
  check_inputs g producers path ((text "X", by_uid conv.x_uid) ∷ (text "W", by_uid conv.w_uid) ∷ [])
  add_producer g producers (by_uid conv.y_uid)
      (child_path (child_path path (text "outputs")) (text "Y"))
check_node g producers path (generic_desc operation) = do
  check_inputs g producers path operation.inputs
  check_input_lists g producers path operation.input_lists
  add_producers g producers path operation.outputs

unfoldable pub check_nodes :
    SerializedGraph → Producers → ℕ → List OperationAttributes → Result Producers
check_nodes g producers index [] = ok producers
check_nodes g producers index (node ∷ rest) = do
  further ← check_node g producers (index_path (text "nodes") index) node
  check_nodes g further (index + 1) rest

unfoldable pub validate_virtual : Producers → TensorReference → TensorDesc → Status
validate_virtual producers reference tensor =
    reject (tensor.is_virtual && not (contains reference producers)) (
      fail invalid_value (text "tensors." ++ tensor.name)
        (text "virtual tensor has no producing node"))

-- The last two loops, which differ in the reference that a key is.
unfoldable pub validate_all :
    {K : Type 0} → (K → TensorReference) → Producers → List (K × TensorDesc) → Status
validate_all reference producers [] = ok tt
validate_all reference producers ((key, tensor) ∷ rest) = do
  validate_virtual producers (reference key) tensor
  validate_all reference producers rest

unfoldable pub validate_graph_references : SerializedGraph → Status
validate_graph_references g = do
  producers ← check_nodes g [] 0 g.nodes
  validate_all by_uid producers g.tensors
  validate_all by_name producers g.named_tensors
