-- ===== src/Tests/Log.antt =====
-- The name of a method of the program, as the runtime gives it.
use interlook.Prelude.{◌≡◌, refl, some, arith}
use interlook.Log.{Caller, CallInfo, retrieve_call_info}
use interlook.Log.Names.{full_name, retrieve_call_info-full_name}

abbrev run_call : Caller
run_call = record {
  file = "/src/interlook/core/server.go";
  name = "github.com/interlook/interlook/core.(*server).run";
  line = 161;
}

abbrev run_info : CallInfo
run_info = record {
  package_name = "github.com/interlook/interlook/core";
  file_name = "server.go";
  func_name = "(*server).run";
  line = 161;
}

run_is_read : retrieve_call_info run_call ≡ some run_info
unfolding retrieve_call_info
run_is_read = refl

retrieve_call_info-full_name_example : full_name run_info ≡ run_call.name
retrieve_call_info-full_name_example =
    retrieve_call_info-full_name run_call run_info (λ e. ground (arith, e)) run_is_read
