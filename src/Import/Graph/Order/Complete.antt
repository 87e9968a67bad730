-- ===== src/Import/Graph/Order/Complete.antt =====
-- lib/Import/SerializedGraphImporter.cpp: the check of the references refuses no ordered graph.
use deep_forge.Base.{
  ℕ, ◌+◌, ◌≡◌, ◌↔◌, refl, ap, ◌∙◌, inl, inr, false, Bool-cases, List, [], ◌∷◌, ◌++◌, All, Text,
  contains, FreshFrom,
}
use deep_forge.Import.Status.{ok}
use deep_forge.Import.Graph.{
  TensorReference, by_uid, by_name, reference_eq, TensorDesc, OperationAttributes, no_attributes,
  conv_fprop_desc, generic_desc, SerializedGraph, Producers, check_reference, add_producer,
  check_input, check_inputs, check_input_list, check_input_lists, add_producers, check_node,
  check_nodes, validate_virtual, validate_all, validate_graph_references,
}
use deep_forge.Import.Graph.Order.{
  references, listed, inputs_of, outputs_of, produced, onto, onto-append, IsTensor, IsAvailable,
  IsNode, Ordered, IsProduced, IsOrderedGraph, validate_graph_references-IsOrderedGraph,
}

check_input-eq :
    (g : SerializedGraph) (seen : Producers) (r : TensorReference) (path : Text)
    → IsAvailable g seen r
    → check_input g seen r path ≡ ok tt
unfolding check_input check_reference
check_input-eq g seen r path h = elim (Bool-cases h.tensor.is_virtual) [
  | inl virtual ↦ rw (h.found, virtual, h.earlier virtual) refl
  | inr concrete ↦ rw (h.found, concrete) refl
]

check_inputs-eq :
    (g : SerializedGraph) (seen : Producers) (path : Text) (ports : List (Text × TensorReference))
    → All (IsAvailable g seen) (references ports)
    → check_inputs g seen path ports ≡ ok tt
unfolding check_inputs
check_inputs-eq g seen path [] h = refl
check_inputs-eq g seen path ((port, r) ∷ rest) h =
    rw (check_input-eq g seen r _ h.0) (check_inputs-eq g seen path rest h.1)

check_input_list-eq :
    (g : SerializedGraph) (seen : Producers) (path : Text) (n : ℕ) (rs : List TensorReference)
    → All (IsAvailable g seen) rs
    → check_input_list g seen path n rs ≡ ok tt
unfolding check_input_list
check_input_list-eq g seen path n [] h = refl
check_input_list-eq g seen path n (r ∷ rest) h =
    rw (check_input-eq g seen r _ h.0) (check_input_list-eq g seen path (n + 1) rest h.1)

All-parts :
    (P : TensorReference → Type 0) (xs ys : List TensorReference)
    → All P (xs ++ ys)
    → All P xs × All P ys
All-parts P [] ys h = (tt, h)
All-parts P (x ∷ xs) ys h = let (a, b) = All-parts P xs ys h.1 in ((h.0, a), b)

check_input_lists-eq :
    (g : SerializedGraph) (seen : Producers) (path : Text)
    (lists : List (Text × List TensorReference))
    → All (IsAvailable g seen) (listed lists)
    → check_input_lists g seen path lists ≡ ok tt
unfolding check_input_lists listed
check_input_lists-eq g seen path [] h = refl
check_input_lists-eq g seen path ((name, rs) ∷ rest) h =
    let (here, later) = All-parts (IsAvailable g seen) rs (listed rest) h in
    rw (check_input_list-eq g seen _ 0 rs here) (check_input_lists-eq g seen path rest later)

add_producer-eq :
    (g : SerializedGraph) (seen : Producers) (r : TensorReference) (path : Text)
    → IsTensor g r
    → contains r seen ≡ false
    → add_producer g seen r path ≡ ok (r ∷ seen)
unfolding add_producer check_reference
add_producer-eq g seen r path (t, found) fresh = rw (found, fresh) refl

add_producers-eq :
    (g : SerializedGraph) (seen : Producers) (path : Text) (ports : List (Text × TensorReference))
    → All (IsTensor g) (references ports)
    → FreshFrom (references ports) seen
    → add_producers g seen path ports ≡ ok (onto (references ports) seen)
unfolding add_producers
add_producers-eq g seen path [] h k = refl
add_producers-eq g seen path ((port, r) ∷ rest) h k =
    rw (add_producer-eq g seen r _ h.0 k.0) (add_producers-eq g (r ∷ seen) path rest h.1 k.1)

check_node-eq :
    (g : SerializedGraph) (seen : Producers) (path : Text) (node : OperationAttributes)
    → IsNode g seen node
    → check_node g seen path node ≡ ok (onto (outputs_of node) seen)
unfolding check_node inputs_of outputs_of
check_node-eq g seen path no_attributes h = absurd (h.attributes refl)
check_node-eq g seen path (conv_fprop_desc conv) h =
    rw (check_inputs-eq g seen path _ h.reads)
      (add_producer-eq g seen (by_uid conv.y_uid) _ h.writes.0 h.fresh.0)
check_node-eq g seen path (generic_desc op) h =
    let (ports, lists) =
      All-parts (IsAvailable g seen) (references op.inputs) (listed op.input_lists) h.reads in
    rw
      (
        check_inputs-eq g seen path op.inputs ports,
        check_input_lists-eq g seen path op.input_lists lists,
      )
      (add_producers-eq g seen path op.outputs h.writes h.fresh)

check_nodes-eq :
    (g : SerializedGraph) (seen : Producers) (n : ℕ) (nodes : List OperationAttributes)
    → Ordered g seen nodes
    → check_nodes g seen n nodes ≡ ok (onto (produced nodes) seen)
unfolding check_nodes produced
check_nodes-eq g seen n [] h = refl
check_nodes-eq g seen n (node ∷ rest) h = rw (check_node-eq g seen _ node h.0) (
    check_nodes-eq g (onto (outputs_of node) seen) (n + 1) rest h.1
    ∙ ap ok (onto-append (outputs_of node) (produced rest) seen))

validate_all-eq :
    {K : Type 0} (reference : K → TensorReference) (seen : Producers) (ts : List (K × TensorDesc))
    → All (IsProduced reference seen) ts
    → validate_all reference seen ts ≡ ok tt
unfolding validate_all validate_virtual
validate_all-eq reference seen [] h = refl
validate_all-eq reference seen ((key, t) ∷ rest) h = elim (Bool-cases t.is_virtual) [
  | inl virtual ↦ rw (virtual, h.0 virtual) (validate_all-eq reference seen rest h.1)
  | inr concrete ↦ rw concrete (validate_all-eq reference seen rest h.1)
]

IsOrderedGraph-validate_graph_references :
    (g : SerializedGraph) → IsOrderedGraph g → validate_graph_references g ≡ ok tt
unfolding validate_graph_references
IsOrderedGraph-validate_graph_references g h =
    rw
      (
        check_nodes-eq g [] 0 g.nodes h.ordered,
        validate_all-eq by_uid (onto (produced g.nodes) []) g.tensors h.by_uids,
      )
      (validate_all-eq by_name (onto (produced g.nodes) []) g.named_tensors h.by_names)

-- validate_graph_references accepts a graph exactly when every node has attributes, reads and
-- produces tensors of the graph only, and of the virtual ones reads only those that an earlier node
-- produces; no tensor is produced twice; and every virtual tensor is produced.
pub validate_graph_references_iff :
    (g : SerializedGraph) → (validate_graph_references g ≡ ok tt) ↔ IsOrderedGraph g
validate_graph_references_iff g =
    (validate_graph_references-IsOrderedGraph g, IsOrderedGraph-validate_graph_references g)
