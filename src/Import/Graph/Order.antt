-- ===== src/Import/Graph/Order.antt =====
-- lib/Import/SerializedGraphImporter.cpp: what the check of the references establishes of a graph.
pub mod Complete
use deep_forge.Base.{
  ℕ, zero, suc, ◌+◌, ◌≡◌, ◌≢◌, ◌↔◌, refl, ap, sym, ◌∙◌, subst, inl, inr, Bool, true, false, not,
  ◌&&◌, Option, none, some, Option-cases, List, [], ◌∷◌, ◌++◌, map, All, All-append, Text, text,
  contains, Distinct, FreshFrom, FreshFrom-Distinct, ◌==◌, ℤ, arith,
}
use deep_forge.Import.Status.{
  Result, Status, Error, ok, err, ◌>>=◌, ◌>>◌, reject, or_fail, >>=-eq-ok, >>-eq-ok, reject-eq-ok,
}
use deep_forge.Import.Graph.{
  TensorReference, by_uid, by_name, reference_eq, TensorDesc, ConvFpropDesc, GenericOperationDesc,
  OperationAttributes, no_attributes, conv_fprop_desc, generic_desc, SerializedGraph, find_tensor,
  Producers, check_reference, add_producer, check_input, check_inputs, check_input_list,
  check_input_lists, add_producers, check_node, check_nodes, validate_virtual, validate_all,
  validate_graph_references,
}

abbrev references : List (Text × TensorReference) → List TensorReference
references ports = map (λ p. p.1) ports

pub listed : List (Text × List TensorReference) → List TensorReference
listed [] = []
listed ((name, rs) ∷ rest) = rs ++ listed rest

-- The tensors that a node reads, and those that it produces.
pub inputs_of : OperationAttributes → List TensorReference
inputs_of no_attributes = []
inputs_of (conv_fprop_desc conv) = by_uid conv.x_uid ∷ by_uid conv.w_uid ∷ []
inputs_of (generic_desc op) = references op.inputs ++ listed op.input_lists

pub outputs_of : OperationAttributes → List TensorReference
outputs_of no_attributes = []
outputs_of (conv_fprop_desc conv) = by_uid conv.y_uid ∷ []
outputs_of (generic_desc op) = references op.outputs

pub produced : List OperationAttributes → List TensorReference
produced [] = []
produced (node ∷ rest) = outputs_of node ++ produced rest

-- the references, the last one first, in front of those that stand already
abbrev pub onto : List TensorReference → Producers → Producers
onto [] seen = seen
onto (r ∷ rs) seen = onto rs (r ∷ seen)

abbrev pub IsTensor : SerializedGraph → TensorReference → Type 0
IsTensor g r = (t : TensorDesc) × (find_tensor g r ≡ some t)

-- A tensor of the graph that, where it is virtual, stands among some producers' outputs.
pub record IsAvailable (g : SerializedGraph) (seen : Producers) (r : TensorReference) : Type 0 where
  pub tensor : TensorDesc
  pub found : find_tensor g r ≡ some tensor
  pub earlier : tensor.is_virtual ≡ true → contains r seen ≡ true

pub record IsNode (g : SerializedGraph) (seen : Producers) (node : OperationAttributes)
    : Type 0 where
  pub attributes : node ≢ no_attributes
  pub reads : All (IsAvailable g seen) (inputs_of node)
  pub writes : All (IsTensor g) (outputs_of node)
  pub fresh : FreshFrom (outputs_of node) seen

-- Every node reads what the nodes before it produce, or what no node needs to.
abbrev pub Ordered : SerializedGraph → Producers → List OperationAttributes → Type 0
Ordered g seen [] = Unit {0}
Ordered g seen (node ∷ rest) = IsNode g seen node × Ordered g (onto (outputs_of node) seen) rest

check_reference-ok :
    (g : SerializedGraph) (r : TensorReference) (path : Text) (t : TensorDesc)
    → check_reference g r path ≡ ok t
    → find_tensor g r ≡ some t
unfolding check_reference
check_reference-ok g r path t h = elim (Option-cases (find_tensor g r)) [
  | inl nothing ↦ absurd (cc (rw (nothing, check_reference, or_fail) at h))
  | inr (found, is) ↦ ground (arith, is)
]

check_input-ok :
    (g : SerializedGraph) (seen : Producers) (r : TensorReference) (path : Text)
    → check_input g seen r path ≡ ok tt
    → IsAvailable g seen r
unfolding check_input
check_input-ok g seen r path h =
    let (t, found, rest) = >>=-eq-ok (check_reference g r path) _ h in
    record {
      tensor = t;
      found = check_reference-ok g r path t found;
      earlier = λ v. ground (arith, v, rest);
    }

check_inputs-ok :
    (g : SerializedGraph) (seen : Producers) (path : Text) (ports : List (Text × TensorReference))
    → check_inputs g seen path ports ≡ ok tt
    → All (IsAvailable g seen) (references ports)
unfolding check_inputs
check_inputs-ok g seen path [] h = tt
check_inputs-ok g seen path ((port, r) ∷ rest) h =
    let (here, later) = >>-eq-ok (check_input g seen r _) _ h in
    (check_input-ok g seen r _ here, check_inputs-ok g seen path rest later)

check_input_list-ok :
    (g : SerializedGraph) (seen : Producers) (path : Text) (n : ℕ) (rs : List TensorReference)
    → check_input_list g seen path n rs ≡ ok tt
    → All (IsAvailable g seen) rs
unfolding check_input_list
check_input_list-ok g seen path n [] h = tt
check_input_list-ok g seen path n (r ∷ rest) h =
    let (here, later) = >>-eq-ok (check_input g seen r _) _ h in
    (check_input-ok g seen r _ here, check_input_list-ok g seen path (n + 1) rest later)

check_input_lists-ok :
    (g : SerializedGraph) (seen : Producers) (path : Text)
    (lists : List (Text × List TensorReference))
    → check_input_lists g seen path lists ≡ ok tt
    → All (IsAvailable g seen) (listed lists)
unfolding check_input_lists listed
check_input_lists-ok g seen path [] h = tt
check_input_lists-ok g seen path ((name, rs) ∷ rest) h =
    let (here, later) = >>-eq-ok (check_input_list g seen _ 0 rs) _ h in
    All-append (IsAvailable g seen) rs (listed rest) (check_input_list-ok g seen _ 0 rs here)
      (check_input_lists-ok g seen path rest later)

add_producer-ok :
    (g : SerializedGraph) (seen : Producers) (r : TensorReference) (path : Text) (after : Producers)
    → add_producer g seen r path ≡ ok after
    → IsTensor g r × (contains r seen ≡ false) × (after ≡ r ∷ seen)
unfolding add_producer
add_producer-ok g seen r path after h =
    let (t, found, rest) = >>=-eq-ok (check_reference g r path) _ h in
    let (fresh, last) = reject-eq-ok (contains r seen) _ _ rest in
    ((t, check_reference-ok g r path t found), fresh, cc last)

add_producers-ok :
    (g : SerializedGraph) (seen : Producers) (path : Text) (ports : List (Text × TensorReference))
    (after : Producers)
    → add_producers g seen path ports ≡ ok after
    → All (IsTensor g) (references ports)
      × FreshFrom (references ports) seen
      × (after ≡ onto (references ports) seen)
unfolding add_producers
add_producers-ok g seen path [] after h = (tt, tt, cc h)
add_producers-ok g seen path ((port, r) ∷ rest) after h =
    let (further, here, later) = >>=-eq-ok (add_producer g seen r _) _ h in
    let (tensor, fresh, is) = add_producer-ok g seen r _ further here in
    let (tensors, new, whole) = add_producers-ok g further path rest after later in
    ((tensor, tensors), (fresh, rw (← is) new), whole ∙ ap (onto (references rest)) is)

check_node-ok :
    (g : SerializedGraph) (seen : Producers) (path : Text) (node : OperationAttributes)
    (after : Producers)
    → check_node g seen path node ≡ ok after
    → IsNode g seen node × (after ≡ onto (outputs_of node) seen)
unfolding check_node inputs_of outputs_of
check_node-ok g seen path no_attributes after h = cc
check_node-ok g seen path (conv_fprop_desc conv) after h =
    let (reads, later) = >>-eq-ok (check_inputs g seen path _) _ h in
    let (tensor, fresh, is) = add_producer-ok g seen (by_uid conv.y_uid) _ after later in
    (
      record {
        attributes = λ p. cc p;
        reads = check_inputs-ok g seen path _ reads;
        writes = (tensor, tt);
        fresh = (fresh, tt);
      },
      is,
    )
check_node-ok g seen path (generic_desc op) after h =
    let (ports, rest) = >>-eq-ok (check_inputs g seen path op.inputs) _ h in
    let (lists, later) = >>-eq-ok (check_input_lists g seen path op.input_lists) _ rest in
    let (tensors, fresh, is) = add_producers-ok g seen path op.outputs after later in
    (
      record {
        attributes = λ p. cc p;
        reads =
            All-append (IsAvailable g seen) (references op.inputs) (listed op.input_lists)
              (check_inputs-ok g seen path op.inputs ports)
              (check_input_lists-ok g seen path op.input_lists lists);
        writes = tensors;
        fresh = fresh;
      },
      is,
    )

pub onto-append :
    (xs ys : List TensorReference) (seen : Producers)
    → onto ys (onto xs seen) ≡ onto (xs ++ ys) seen
onto-append [] ys seen = refl
onto-append (x ∷ xs) ys seen = onto-append xs ys (x ∷ seen)

check_nodes-ok :
    (g : SerializedGraph) (seen : Producers) (n : ℕ) (nodes : List OperationAttributes)
    (after : Producers)
    → check_nodes g seen n nodes ≡ ok after
    → Ordered g seen nodes × (after ≡ onto (produced nodes) seen)
unfolding check_nodes produced
check_nodes-ok g seen n [] after h = (tt, cc h)
check_nodes-ok g seen n (node ∷ rest) after h =
    let (further, here, later) = >>=-eq-ok (check_node g seen _ node) _ h in
    let (fits, is) = check_node-ok g seen _ node further here in
    let (ordered, whole) = check_nodes-ok g further (n + 1) rest after later in
    (
      (fits, subst (λ p. Ordered g p rest) is ordered),
      whole ∙ (ap (onto (produced rest)) is ∙ onto-append (outputs_of node) (produced rest) seen),
    )

FreshFrom-append :
    (xs ys : List TensorReference) (seen : Producers)
    → FreshFrom xs seen
    → FreshFrom ys (onto xs seen)
    → FreshFrom (xs ++ ys) seen
FreshFrom-append [] ys seen h k = k
FreshFrom-append (x ∷ xs) ys seen h k = (h.0, FreshFrom-append xs ys (x ∷ seen) h.1 k)

Ordered-FreshFrom :
    (g : SerializedGraph) (seen : Producers) (nodes : List OperationAttributes)
    → Ordered g seen nodes
    → FreshFrom (produced nodes) seen
unfolding produced
Ordered-FreshFrom g seen [] h = tt
Ordered-FreshFrom g seen (node ∷ rest) h =
    FreshFrom-append (outputs_of node) (produced rest) seen h.0.fresh
      (Ordered-FreshFrom g (onto (outputs_of node) seen) rest h.1)

-- A virtual tensor stands among the outputs.
abbrev pub IsProduced : {K : Type 0} → (K → TensorReference) → Producers → K × TensorDesc → Type 0
IsProduced reference outputs entry =
    entry.1.is_virtual ≡ true → contains (reference entry.0) outputs ≡ true

validate_all-ok :
    {K : Type 0} (reference : K → TensorReference) (seen : Producers) (ts : List (K × TensorDesc))
    → validate_all reference seen ts ≡ ok tt
    → All (IsProduced reference seen) ts
unfolding validate_all validate_virtual
validate_all-ok reference seen [] h = tt
validate_all-ok reference seen ((key, t) ∷ rest) h =
    let (here, later) = reject-eq-ok (t.is_virtual && not (contains (reference key) seen)) _ _ h in
    (λ v. ground (arith, v, here), validate_all-ok reference seen rest later)

-- What the check says of a graph: the nodes stand in an order in which each reads only tensors of
-- the graph, a virtual one only behind the node that produces it; no tensor has two producers; and
-- every virtual tensor has one.
pub record IsOrderedGraph (g : SerializedGraph) : Type 0 where
  pub ordered : Ordered g [] g.nodes
  pub once : Distinct (produced g.nodes)
  pub by_uids : All (IsProduced by_uid (onto (produced g.nodes) [])) g.tensors
  pub by_names : All (IsProduced by_name (onto (produced g.nodes) [])) g.named_tensors

pub validate_graph_references-IsOrderedGraph :
    (g : SerializedGraph) → validate_graph_references g ≡ ok tt → IsOrderedGraph g
unfolding validate_graph_references
validate_graph_references-IsOrderedGraph g h =
    let (after, walked, rest) = >>=-eq-ok (check_nodes g [] 0 g.nodes) _ h in
    let (uids, names) = >>-eq-ok (validate_all by_uid after g.tensors) _ rest in
    let (ordered, is) = check_nodes-ok g [] 0 g.nodes after walked in
    record {
      ordered = ordered;
      once = FreshFrom-Distinct (produced g.nodes) [] (Ordered-FreshFrom g [] g.nodes ordered);
      by_uids = rw (← is) (validate_all-ok by_uid after g.tensors uids);
      by_names = rw (← is) (validate_all-ok by_name after g.named_tensors names);
    }
