-- ===== src/Protocol/Reply.antt =====
-- cuttlefish/cfctl/src/protocol.rs: `Response` and its constructors.
use fundroid.Prelude.{Bool, true, false, List, Option, none, some}
use fundroid.Protocol.{
  Message, CreateInstanceResponse, InstanceActionResponse, LogsResponse, InstanceSummary,
  ErrorDetail,
}

pub record Response : Type 0 where
  pub ok : Bool
  pub message : Option Message
  pub create : Option CreateInstanceResponse
  pub action : Option InstanceActionResponse
  pub logs : Option LogsResponse
  pub instances : Option (List InstanceSummary)
  pub error : Option ErrorDetail

unfoldable pub ok : Response
ok = record {
  ok = true;
  message = none;
  create = none;
  action = none;
  logs = none;
  instances = none;
  error = none;
}

unfoldable pub with_message : Response → Message → Response
with_message r msg = record r { message = some msg }

unfoldable pub error : Message → Response
error msg = record {
  ok = false;
  message = some msg;
  create = none;
  action = none;
  logs = none;
  instances = none;
  error = none;
}

unfoldable pub error_with_detail : ErrorDetail → Response
error_with_detail detail = record {
  ok = false;
  message = none;
  create = none;
  action = none;
  logs = none;
  instances = none;
  error = some detail;
}
