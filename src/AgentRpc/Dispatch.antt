-- ===== src/AgentRpc/Dispatch.antt =====
-- src-tauri/src/agent_rpc/dispatch.rs with the messages of protocol.rs and the backends of commands.rs:
-- a verified command is routed to its handler. A handler acts on a state `W`, and `Json` is the type of
-- its payloads.
use weftgrid.Base.{ℕ, Option, Bytes}
use weftgrid.Base.Results.{Result, ok, err}
use weftgrid.Base.Text.{codes}

pub data PaneTarget : Type 0 where
  focused : PaneTarget
  pane : Bytes → PaneTarget

pub data GetKind : Type 0 where
  text html value attr box styles count : GetKind

pub data BrowserAction : Type 0 where
  snapshot : BrowserAction
  click : Bytes → BrowserAction
  fill : Bytes → Bytes → BrowserAction
  eval : Bytes → BrowserAction
  wait : Option Bytes → Option ℕ → BrowserAction
  get : Bytes → GetKind → Option Bytes → BrowserAction
  find : Bytes → BrowserAction

pub data Command : Type 0 where
  browser : PaneTarget → BrowserAction → Command
  notify : Bytes → Command
  ssh : Bytes → Command

pub record RpcRequest : Type 0 where
  pub token : Bytes
  pub command : Command

pub record ErrorModel : Type 0 where
  pub code : Bytes
  pub message : Bytes

abbrev pub AutomationResult : Type 0 → Type 0
AutomationResult Json = Result Json ErrorModel

pub data RpcResponse (Json : Type 0) : Type 0 where
  succeeded : Json → RpcResponse Json
  failed : ErrorModel → RpcResponse Json

pub record AutomationDispatch (W Json : Type 0) : Type 0 where
  pub on_snapshot : W → PaneTarget → W × AutomationResult Json
  pub on_click : W → PaneTarget → Bytes → W × AutomationResult Json
  pub on_fill : W → PaneTarget → Bytes → Bytes → W × AutomationResult Json
  pub on_eval : W → PaneTarget → Bytes → W × AutomationResult Json
  pub on_wait : W → PaneTarget → Option Bytes → Option ℕ → W × AutomationResult Json
  pub on_get : W → PaneTarget → Bytes → GetKind → Option Bytes → W × AutomationResult Json
  pub on_find : W → PaneTarget → Bytes → W × AutomationResult Json

pub record DomainHandlers (W Json : Type 0) : Type 0 where
  pub on_notify : W → Bytes → W × AutomationResult Json
  pub on_ssh : W → Bytes → W × AutomationResult Json

pub record Dispatcher (W Json : Type 0) : Type 0 where
  pub automation : AutomationDispatch W Json
  pub handlers : DomainHandlers W Json

abbrev pub unimplemented : Bytes → ErrorModel
unimplemented message = record { code = codes "unimplemented"; message = message }

-- The default implementations of the trait.
abbrev pub stub_handlers : (W Json : Type 0) → DomainHandlers W Json
stub_handlers W Json = record {
  on_notify = λ w _. (w, err (unimplemented (codes "notify handler not yet provided (P5)")));
  on_ssh = λ w _. (w, err (unimplemented (codes "ssh handler not yet provided (P10)")));
}

abbrev pub pending : ErrorModel
pending = record {
  code = codes "unavailable";
  message = codes "browser automation backend not yet wired (P7 integration pending)";
}

abbrev pub pending_automation : (W Json : Type 0) → AutomationDispatch W Json
pending_automation W Json = record {
  on_snapshot = λ w _. (w, err pending);
  on_click = λ w _ _. (w, err pending);
  on_fill = λ w _ _ _. (w, err pending);
  on_eval = λ w _ _. (w, err pending);
  on_wait = λ w _ _ _. (w, err pending);
  on_get = λ w _ _ _ _. (w, err pending);
  on_find = λ w _ _. (w, err pending);
}

abbrev pub build_dispatcher : (W Json : Type 0) → Dispatcher W Json
build_dispatcher W Json = record {
  automation = pending_automation W Json;
  handlers = stub_handlers W Json;
}

module _ {W Json : Type 0} where
  unfoldable pub dispatch_browser :
      Dispatcher W Json → W → PaneTarget → BrowserAction → W × AutomationResult Json
  dispatch_browser d w target snapshot = d.automation.on_snapshot w target
  dispatch_browser d w target (click reference) = d.automation.on_click w target reference
  dispatch_browser d w target (fill reference t) = d.automation.on_fill w target reference t
  dispatch_browser d w target (eval js) = d.automation.on_eval w target js
  dispatch_browser d w target (wait selector timeout_ms) =
      d.automation.on_wait w target selector timeout_ms
  dispatch_browser d w target (get reference kind a) = d.automation.on_get w target reference kind a
  dispatch_browser d w target (find query) = d.automation.on_find w target query

  unfoldable pub respond : W × AutomationResult Json → W × RpcResponse Json
  respond (w, ok json) = (w, succeeded json)
  respond (w, err e) = (w, failed e)

  unfoldable pub dispatch : Dispatcher W Json → W → Command → W × RpcResponse Json
  unfolding dispatch_browser respond
  dispatch d w (browser target action) = respond (dispatch_browser d w target action)
  dispatch d w (notify message) = respond (d.handlers.on_notify w message)
  dispatch d w (ssh destination) = respond (d.handlers.on_ssh w destination)
