-- ===== src/Examples/Referenced.antt =====
-- A graph of a convolution and an activation that reads its virtual output.
use deep_forge.Base.{
  ◌≡◌, ◌↔◌, refl, true, false, List, [], ◌∷◌, Text, text, list_beq, contains, pos, decimal,
}
use deep_forge.Import.Status.{ok, err, fail, invalid_value}
use deep_forge.Import.Graph.{
  TensorDesc, by_uid, by_name, reference_beq, OperationAttributes, conv_fprop_desc, generic_desc,
  SerializedGraph, find_tensor, check_reference, add_producer, check_input, check_inputs,
  check_input_lists, add_producers, check_node, check_nodes, validate_virtual, validate_all,
  child_path, index_path, validate_graph_references,
}
use deep_forge.Import.Graph.Order.{IsOrderedGraph}
use deep_forge.Import.Graph.Order.Complete.{validate_graph_references_iff}

abbrev convolution : OperationAttributes
convolution = conv_fprop_desc (record { x_uid = pos 1; w_uid = pos 2; y_uid = pos 3 })

abbrev activation : OperationAttributes
activation = generic_desc (record {
  inputs = (text "IN_0", by_uid (pos 3)) ∷ [];
  input_lists = [];
  outputs = (text "OUT_0", by_name (text "out")) ∷ [];
})

abbrev tensor : Text → TensorDesc
tensor name = record { name = name; is_virtual = false }

abbrev graph_of : List OperationAttributes → SerializedGraph
graph_of nodes = record {
  tensors =
      (pos 1, tensor (text "X"))
      ∷ (pos 2, tensor (text "W"))
      ∷ (pos 3, record { name = text "Y"; is_virtual = true })
      ∷ [];
  named_tensors = (text "out", tensor (text "out")) ∷ [];
  nodes = nodes;
}

accepted : validate_graph_references (graph_of (convolution ∷ activation ∷ [])) ≡ ok tt
unfolding validate_graph_references check_nodes check_node check_inputs check_input_lists
    check_input check_reference add_producers add_producer find_tensor validate_all validate_virtual
    text list_beq contains reference_beq child_path
accepted = refl

-- In the other order the activation reads a virtual tensor before it is produced.
refused :
    validate_graph_references (graph_of (activation ∷ convolution ∷ []))
    ≡ err (
        fail invalid_value
          (text "nodes[0].inputs.IN_0")
          (text "virtual tensor must be produced by an earlier node"))
unfolding validate_graph_references check_nodes check_node check_inputs check_input check_reference
    find_tensor text list_beq contains reference_beq child_path index_path decimal
refused = refl

validate_graph_references_iff_example :
    (validate_graph_references (graph_of (convolution ∷ activation ∷ [])) ≡ ok tt)
    ↔ IsOrderedGraph (graph_of (convolution ∷ activation ∷ []))
validate_graph_references_iff_example =
    validate_graph_references_iff (graph_of (convolution ∷ activation ∷ []))
