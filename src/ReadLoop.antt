-- ===== src/ReadLoop.antt =====
-- The loop that `RpcServer::onMessage` and `RpcClient::onMessage` (code/rpc/) share, over what each
-- does with a message (`handle`) and with a corrupted frame (`close`, the call of `conn->close()`).
-- A round takes four bytes at least from the buffer, so `readable_bytes + 1` rounds are enough;
-- `none` would mean that they were not.
pub mod Stream
pub mod Split
pub mod Chunks
use light_rpc.Prelude.{
  ℕ, zero, suc, ◌+◌, Bool, true, false, List, [], ◌∷◌, Option, none, some, if◌then◌else◌, ltb, drop,
}
use light_rpc.Buffer.{Buffer, readable_bytes, peek_string_view, retrieve, read_fd, readv_bytes}
use light_rpc.Codec.{ProtoMessage, DecodeStatus, ok, incomplete, corrupted, decode}

module _ {T : Type 0} (proto : ProtoMessage T) where
  module _ {S : Type 0} (handle : T → S → S) (close : S → S) where
    -- The body of the loop behind `decode`, with the rounds that follow.
    after_decode :
        (Buffer → S → Option (Buffer × S)) → Buffer → S → DecodeStatus T → Option (Buffer × S)
    after_decode rounds b s incomplete = some (b, s)
    after_decode rounds b s (corrupted consumed) = some (b, close s)
    after_decode rounds b s (ok msg consumed) = rounds (retrieve consumed b) (handle msg s)

    pub read_loop : ℕ → Buffer → S → Option (Buffer × S)
    unfolding after_decode
    read_loop zero b s = none
    read_loop (suc fuel) b s =
        if ltb (readable_bytes b) 4
        then some (b, s)
        else after_decode (read_loop fuel) b s (decode proto (peek_string_view b))

    pub on_message : Buffer → S → Option (Buffer × S)
    on_message b s = read_loop (readable_bytes b + 1) b s

    -- `TcpConnection::handleRead` of a connected connection for each chunk that the socket delivers.
    -- A chunk stands for a read of at least one byte: the end of the stream (`n == 0`) is no chunk.
    pub receive : List (List ℕ) → Buffer → S → Option (Buffer × S)
    receive [] b s = some (b, s)
    receive (chunk ∷ chunks) b s = elim (on_message (read_fd (readv_bytes chunk) 0 b).2 s) [
      | none ↦ none
      | some (b', s') ↦ receive chunks b' s'
    ]

  -- The messages at the front of a byte string, whether a corrupted frame ends them, and the rest:
  -- what the loop should make of it.
  unfoldable pub messages_after :
      (List ℕ → List T × Bool × List ℕ) → List ℕ → DecodeStatus T → List T × Bool × List ℕ
  messages_after rounds xs incomplete = ([], false, xs)
  messages_after rounds xs (corrupted consumed) = ([], true, xs)
  messages_after rounds xs (ok msg consumed) =
      let (ms, bad, rest) = rounds (drop consumed xs) in (msg ∷ ms, bad, rest)

  unfoldable pub messages : ℕ → List ℕ → List T × Bool × List ℕ
  unfolding messages_after
  messages zero xs = ([], false, xs)
  messages (suc fuel) xs = messages_after (messages fuel) xs (decode proto xs)
