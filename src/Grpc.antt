-- ===== src/Grpc.antt =====
-- A unary gRPC call as the interceptors see it. Requests and responses are texts here: no
-- interceptor looks inside them.
use helix_fnd.Prelude.{ℕ, String, List, Option}
use helix_fnd.Context.{Context}

pub record Call : Type 0 where
  pub ctx : Context
  pub metadata : Option (List (String × List String))  -- `metadata.FromIncomingContext`
  pub peer : Option String  -- the address of `peer.FromContext`
  pub full_method : String
  pub req : String

-- The codes of google.golang.org/grpc/codes that the interceptors return.
pub data Code : Type 0 where
  internal unauthenticated resource_exhausted : Code
  handler_code : ℕ → Code

pub data Reply : Type 0 where
  response : String → Reply
  status : Code → String → Reply

-- The state of a call: the surroundings, the response header set so far, the lines logged.
pub record CallState (W : Type 0) : Type 0 where
  pub world : W
  pub header : List (String × String)
  pub logs : List String

pub data Exit (W : Type 0) : Type 0 where
  replied : CallState W → Reply → Exit W
  panicked : String → CallState W → Exit W

abbrev pub Handler : Type 0 → Type 0
Handler W = Call → CallState W → Exit W

abbrev pub with_ctx : Call → Context → Call
with_ctx call ctx = record call { ctx = ctx }
