-- ===== src/Examples/OutputRuns.antt =====
-- An output of the operating system with two contracts and a class, in full output.
use snos.Base.{◌≡◌, refl, true, false, List, [], ◌∷◌, ◌++◌, arith}
use snos.Base.Outcome.{ok}
use snos.Io.Output.{deserialize_os_output, deserialize_contract_state_inner, deserialize_messages}
use snos.Io.Output.Wire.{
  Update, Contract, Wire, Fits, IsValid, encode, encode_contract, encode_segment, changes,
  output_of,
}
use snos.Io.Output.RoundTrip.{
  deserialize_os_output-encode, deserialize_contract_state_inner-encode_contract,
  deserialize_messages-encode_segment,
}

abbrev two_updates : List Update
two_updates =
    record { key = 5; prev_value = 0; new_value = 7 }
    ∷ record { key = 6; prev_value = 1; new_value = 2 }
    ∷ []

abbrev updated_contract : Contract
updated_contract = record {
  addr = 100;
  nonce = 3;
  class_updated = true;
  prev_class_hash = 11;
  new_class_hash = 12;
  updates = two_updates;
}

abbrev idle_contract : Contract
idle_contract = record {
  addr = 101;
  nonce = 0;
  class_updated = false;
  prev_class_hash = 13;
  new_class_hash = 13;
  updates = [];
}

abbrev full_wire : Wire
full_wire = record {
  initial_root = 1;
  final_root = 2;
  prev_block_number = 3;
  new_block_number = 4;
  prev_block_hash = 5;
  new_block_hash = 6;
  os_program_hash = 0;
  starknet_os_config_hash = 7;
  use_kzg_da = 0;
  full_output = 1;
  kzg_z = 0;
  n_blobs = 0;
  kzg_data = [];
  messages_to_l1 = 1 ∷ 2 ∷ [];
  messages_to_l2 = 3 ∷ [];
  contracts = updated_contract ∷ idle_contract ∷ [];
  classes = record { key = 20; prev_value = 0; new_value = 21 } ∷ [];
}

updated_contract-Fits : Fits updated_contract
updated_contract-Fits = record { nonce = omega arith; updates = omega arith }

full_wire-IsValid : IsValid full_wire
full_wire-IsValid = record {
  blobs = omega arith;
  kzg = refl;
  to_l1 = omega arith;
  to_l2 = omega arith;
  n_contracts = omega arith;
  n_classes = omega arith;
  fits = (updated_contract-Fits, (record { nonce = omega arith; updates = omega arith }, tt));
}

deserialize_os_output-encode_example :
    deserialize_os_output (encode full_wire ++ (9 ∷ [])) ≡ ok (output_of full_wire, 9 ∷ [])
deserialize_os_output-encode_example =
    deserialize_os_output-encode full_wire (9 ∷ []) full_wire-IsValid

deserialize_contract_state_inner-encode_contract_example :
    deserialize_contract_state_inner 0 (encode_contract 0 updated_contract ++ (9 ∷ []))
    ≡ ok (changes 0 updated_contract, 9 ∷ [])
deserialize_contract_state_inner-encode_contract_example =
    deserialize_contract_state_inner-encode_contract 0 updated_contract (9 ∷ [])
      updated_contract-Fits

deserialize_messages-encode_segment_example :
    deserialize_messages (encode_segment (1 ∷ 2 ∷ []) ++ (encode_segment (3 ∷ []) ++ (9 ∷ [])))
    ≡ ok ((1 ∷ 2 ∷ [], 3 ∷ []), 9 ∷ [])
deserialize_messages-encode_segment_example =
    deserialize_messages-encode_segment (1 ∷ 2 ∷ []) (3 ∷ []) (9 ∷ []) (omega arith) (omega arith)
