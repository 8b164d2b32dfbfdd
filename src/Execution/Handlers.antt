-- ===== src/Execution/Handlers.antt =====
-- The handlers of crates/starknet-os/src/execution/syscall_handler.rs but for those that hash.
use snos.Base.{ℕ, Bool, false, ◌==◌, if◌then◌else◌, Option, none, some, List, length}
use snos.Base.Outcome.{Outcome, ok, err, panicked}
use snos.Base.HashMap
use snos.Base.HashMap.{HashMap, nat_eq}
use snos.Execution.Vm.{VirtualMachine}
use snos.Execution.Helper.{
  ExecutionHelper, next_result, next_deployed_contract, next_storage_read, PerContractStorage,
  HelperError, read_storage_for_address,
}
use snos.Execution.Exec.{
  internal_error, syscall_error, SyscallResult, Call, pure, fail, ◌>>=◌, ◌>>◌, spend,
}
use snos.Execution.Syscall.{ReadOnlySegment, SyscallHandler, write_felt, write_segment}
use snos.Execution.Requests.{
  DeployResponse, call_contract_request_size, deploy_request_size, emit_event_request_size,
  library_call_request_size, send_message_to_l1_request_size, storage_read_request_size,
  storage_write_request_size, replace_class_request_size, skip_request, read_block_number,
  read_address_domain, write_nothing, write_pointer, write_deploy_response,
}
use snos.Execution.State.{
  Packages, OsInput, SyscallHelper, reads_helper, on_helper, replay, temporary_segment, load,
}

abbrev pub block_hash_contract_address : ℕ
block_hash_contract_address = 1

-- The numbers of constructors in the class formats of other packages, if they can be converted.
pub record ClassFormats (Casm Deprecated : Type 0) : Type 0 where
  pub constructors : Casm → Option ℕ
  pub deprecated_constructors : Deprecated → Option ℕ

-- The lookups of `Deploy` in the input: whether a class has no constructor. An `expect` that finds
-- nothing panics.
module _ {Casm Deprecated : Type 0} (formats : ClassFormats Casm Deprecated) where
  abbrev has_none : Option ℕ → SyscallResult Bool
  has_none none = panicked
  has_none (some num_constructors) = ok (num_constructors == 0)

  abbrev no_constructor : Option Casm → SyscallResult Bool
  no_constructor none = panicked
  no_constructor (some casm) = has_none (formats.constructors casm)

  abbrev no_deprecated_constructor : Option Deprecated → SyscallResult Bool
  no_deprecated_constructor none = panicked
  no_deprecated_constructor (some deprecated_cc) =
      has_none (formats.deprecated_constructors deprecated_cc)

  abbrev class_has_none : OsInput Casm Deprecated → ℕ → Option ℕ → SyscallResult Bool
  class_has_none os_input class_hash none =
      no_deprecated_constructor (HashMap.get class_hash os_input.deprecated_compiled_classes)
  class_has_none os_input class_hash (some compiled_class_hash) =
      no_constructor (HashMap.get compiled_class_hash os_input.compiled_classes)

  abbrev contract_has_none : OsInput Casm Deprecated → Option ℕ → SyscallResult Bool
  contract_has_none os_input none = panicked
  contract_has_none os_input (some class_hash) =
      class_has_none os_input class_hash
        (HashMap.get class_hash os_input.class_hash_to_compiled_class_hash)

  unfoldable pub need_retdata_hack : ℕ → Option (OsInput Casm Deprecated) → SyscallResult Bool
  need_retdata_hack contract_address none = ok false
  need_retdata_hack contract_address (some os_input) =
      contract_has_none os_input
        (HashMap.get contract_address os_input.contract_address_to_class_hash)

-- What the storage gives, without its error.
module _ {Ptr : Type 0} {P : Packages} where
  abbrev block_hash_read :
      SyscallHelper Ptr P
      → Outcome HelperError ℕ × ExecutionHelper P.PCS Ptr
      → SyscallResult ℕ × SyscallHelper Ptr P
  block_hash_read h (ok block_hash, eh) = (ok block_hash, record h { execution_helper = eh })
  block_hash_read h (err e, eh) = (err internal_error, record h { execution_helper = eh })
  block_hash_read h (panicked, eh) = (panicked, record h { execution_helper = eh })

  abbrev pub read_block_hash :
      PerContractStorage P.PCS → ℕ → SyscallHelper Ptr P → SyscallResult ℕ × SyscallHelper Ptr P
  read_block_hash pcs block_number h =
      block_hash_read h
        (read_storage_for_address pcs block_hash_contract_address block_number h.execution_helper)

module _ {Ptr : Type 0} where
  abbrev pub execution_info_ptr : Option Ptr → SyscallResult Ptr
  execution_info_ptr none = panicked
  execution_info_ptr (some ptr) = ok ptr

module _ {Vm Ptr : Type 0} {P : Packages} where
  unfoldable pub execute_get_block_hash :
      PerContractStorage P.PCS → ℕ → Call Vm (SyscallHelper Ptr P) ℕ
  execute_get_block_hash pcs block_number = on_helper (read_block_hash pcs block_number)

  unfoldable pub execute_get_execution_info : Call Vm (SyscallHelper Ptr P) Ptr
  execute_get_execution_info =
      reads_helper (λ h. execution_info_ptr h.execution_helper.call_execution_info_ptr)

  unfoldable pub execute_storage_read : Call Vm (SyscallHelper Ptr P) ℕ
  execute_storage_read = replay next_storage_read

module _ {Vm S : Type 0} where
  abbrev pub execute_nothing : Unit {0} → Call Vm S (Unit {0})
  execute_nothing request = pure tt

module _ {Vm Ptr S : Type 0} (v : VirtualMachine Vm Ptr) where
  -- The result of a call becomes a segment of its return data.
  unfoldable pub load_retdata : List ℕ → Call Vm S (ReadOnlySegment Ptr)
  load_retdata retdata = do
    start_ptr ← temporary_segment v
    _ ← load v start_ptr retdata
    pure record { start_ptr = start_ptr; length = length retdata }

module _ {Vm Ptr : Type 0} {P : Packages} (v : VirtualMachine Vm Ptr) where
  -- `CallContractHandler::execute`, `LibraryCallHandler::execute` and the start of
  -- `DeployHandler::execute`
  unfoldable pub execute_call : Call Vm (SyscallHelper Ptr P) (ReadOnlySegment Ptr)
  execute_call = do
    result ← replay next_result
    spend result.gas_consumed
    (if result.failed then fail (syscall_error result.retdata) else load_retdata v result.retdata)

  unfoldable pub execute_deploy :
      ClassFormats P.Casm P.Deprecated → Call Vm (SyscallHelper Ptr P) (DeployResponse Ptr)
  execute_deploy formats = do
    constructor_retdata ← execute_call
    contract_address ← replay next_deployed_contract
    hack ← reads_helper (λ h. need_retdata_hack formats contract_address h.os_input)
    pure record {
      contract_address = contract_address;
      constructor_retdata = constructor_retdata;
      need_retdata_hack = hack;
    }

  abbrev pub call_contract_handler :
      SyscallHandler Vm Ptr (SyscallHelper Ptr P) (Unit {0}) (ReadOnlySegment Ptr)
  call_contract_handler = record {
    read_request = skip_request v call_contract_request_size;
    execute = λ _. execute_call;
    write_response = write_segment v;
  }

  abbrev pub deploy_handler :
      ClassFormats P.Casm P.Deprecated
      → SyscallHandler Vm Ptr (SyscallHelper Ptr P) (Unit {0}) (DeployResponse Ptr)
  deploy_handler formats = record {
    read_request = skip_request v deploy_request_size;
    execute = λ _. execute_deploy formats;
    write_response = write_deploy_response v;
  }

  -- `EmitEventHandler`, `SendMessageToL1Handler` and `ReplaceClassHandler`
  abbrev pub no_op_handler : ℕ → SyscallHandler Vm Ptr (SyscallHelper Ptr P) (Unit {0}) (Unit {0})
  no_op_handler request_size = record {
    read_request = skip_request v request_size;
    execute = execute_nothing;
    write_response = write_nothing v;
  }

  abbrev pub emit_event_handler : SyscallHandler Vm Ptr (SyscallHelper Ptr P) (Unit {0}) (Unit {0})
  emit_event_handler = no_op_handler emit_event_request_size

  abbrev pub replace_class_handler :
      SyscallHandler Vm Ptr (SyscallHelper Ptr P) (Unit {0}) (Unit {0})
  replace_class_handler = no_op_handler replace_class_request_size

  abbrev pub send_message_to_l1_handler :
      SyscallHandler Vm Ptr (SyscallHelper Ptr P) (Unit {0}) (Unit {0})
  send_message_to_l1_handler = no_op_handler send_message_to_l1_request_size

  abbrev pub get_block_hash_handler :
      PerContractStorage P.PCS → SyscallHandler Vm Ptr (SyscallHelper Ptr P) ℕ ℕ
  get_block_hash_handler pcs = record {
    read_request = read_block_number v;
    execute = execute_get_block_hash pcs;
    write_response = write_felt v;
  }

  abbrev pub get_execution_info_handler : SyscallHandler Vm Ptr (SyscallHelper Ptr P) (Unit {0}) Ptr
  get_execution_info_handler = record {
    read_request = λ m ptr. ok (tt, ptr);
    execute = λ _. execute_get_execution_info;
    write_response = write_pointer v;
  }

  abbrev pub library_call_handler :
      SyscallHandler Vm Ptr (SyscallHelper Ptr P) (Unit {0}) (ReadOnlySegment Ptr)
  library_call_handler = record {
    read_request = skip_request v library_call_request_size;
    execute = λ _. execute_call;
    write_response = write_segment v;
  }

  abbrev pub storage_read_handler : SyscallHandler Vm Ptr (SyscallHelper Ptr P) (Unit {0}) ℕ
  storage_read_handler = record {
    read_request = read_address_domain v storage_read_request_size;
    execute = λ _. execute_storage_read;
    write_response = write_felt v;
  }

  abbrev pub storage_write_handler :
      SyscallHandler Vm Ptr (SyscallHelper Ptr P) (Unit {0}) (Unit {0})
  storage_write_handler = record {
    read_request = read_address_domain v storage_write_request_size;
    execute = execute_nothing;
    write_response = write_nothing v;
  }
