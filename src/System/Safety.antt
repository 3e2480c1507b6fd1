-- ===== src/System/Safety.antt =====
-- System: whatever the interleaving, no request and no response is lost, doubled or mixed up.
use mathlib.Core.List.{Perm}
use mathlib.Core.List.Perm
use light_rpc.Prelude.{List}
use light_rpc.Buffer.{create as create_buffer}
use light_rpc.Client.{create as create_client}
use light_rpc.System.{System, create}
