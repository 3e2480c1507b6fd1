-- ===== src/Channel/Dispatch.antt =====
-- Channel: what `HandleEvent` keeps, and what an error does.
use light_rpc.Prelude.{Bool, true, false, ◌||◌, if◌then◌else◌}
use light_rpc.Channel.{
  Events, Channel, Callback, call_if, handle_event, is_none_event, on_read, on_write, on_close,
  on_error,
}

module _ {S : Type 0} (channel : S → Channel) (call : Callback → S → S) where
  call_if-keeps :
      (P : S → Type 0)
      → ((cb : Callback) (s : S) → P s → P (call cb s))
      → (is_set : Bool) (cb : Callback) (s : S) → P s
      → P (call_if channel call is_set cb s)
  unfolding call_if
  call_if-keeps P keeps true cb s p = keeps cb s p
  call_if-keeps P keeps false cb s p = p

  if-keeps : (P : S → Type 0) (b : Bool) (s t : S) → P s → P t → P (if b then s else t)
  if-keeps P true s t p q = p
  if-keeps P false s t p q = q

  -- What every callback keeps, `HandleEvent` keeps.
  pub handle_event-keeps :
      (P : S → Type 0)
      → ((cb : Callback) (s : S) → P s → P (call cb s))
      → (revents : Events) (s : S) → P s
      → P (handle_event channel call revents s)
  unfolding handle_event
  handle_event-keeps P keeps revents s p =
      let after_input =
        if-keeps P revents.input _ s (call_if-keeps P keeps (channel s).read_callback on_read s p)
          p in
      if-keeps P (is_none_event (channel s)) s _ p (
        if-keeps P (revents.error || revents.hang_up) _ _
          (call_if-keeps P keeps (channel s).error_callback on_error s p)
          (if-keeps P revents.peer_hang_up _ _
            (call_if-keeps P keeps (channel s).close_callback on_close s p)
            (if-keeps P revents.output _ _ (call_if-keeps P keeps _ on_write _ after_input)
              after_input)))
