-- ===== src/OmxCore/Tunnel.antt =====
-- domx/omx_core/src/OMX_Core.c: OMX_SetupTunnel.
use camerahal.Common.{
  ℕ, ◌≡◌, ◌≢◌, inl, inr, refl, sym, Bool, true, false, ◌&&◌, Option, none, some, List, [], ◌∷◌,
  ◌++◌, ◌==◌, ==_refl, if◌then◌else◌, arith, Bool-cases,
}
use camerahal.OmxCore.Errors.{OmxError, is_none, error_none, bad_parameter, not_implemented}

-- A call of ComponentTunnelRequest: the component and its port, the peer and its port, and whether
-- a setup structure goes with it.
pub record Request : Type 0 where
  pub component : ℕ
  pub port : ℕ
  pub peer : Option ℕ
  pub peer_port : ℕ
  pub has_setup : Bool

abbrev pub Answered : Type 0
Answered = Request × OmxError

abbrev pub request : ℕ → ℕ → Option ℕ → ℕ → Request
request component port peer peer_port = record {
  component = component;
  port = port;
  peer = peer;
  peer_port = peer_port;
  has_setup = true;
}

-- The request with NULL for the peer, the peer's port and the setup.
abbrev pub cancel : ℕ → ℕ → Request
cancel component port = record {
  component = component;
  port = port;
  peer = none;
  peer_port = 0;
  has_setup = false;
}

-- The components answer, by what they were asked before.
module _ (respond : List Answered → Request → OmxError) where
  -- From the request to the input component on, which only follows a success at the output.
  unfoldable pub request_input : List Answered → ℕ → ℕ → ℕ → ℕ → OmxError × List Answered
  request_input asked output port_output input port_input =
      let r = request input port_input (some output) port_output in
      let e = respond asked r in
      let asked' = asked ++ (r, e) ∷ [] in
      let c = cancel output port_output in
      if is_none e then (e, asked') else (e, asked' ++ (c, respond asked' c) ∷ [])

  unfoldable pub setup_tunnel : Option ℕ → ℕ → Option ℕ → ℕ → OmxError × List Answered
  unfolding request_input
  setup_tunnel none port_output none port_input = (bad_parameter, [])
  setup_tunnel none port_output (some input) port_input = (not_implemented, [])
  setup_tunnel (some output) port_output none port_input =
      let r = request output port_output none port_input in (respond [] r, (r, respond [] r) ∷ [])
  setup_tunnel (some output) port_output (some input) port_input =
      let r = request output port_output (some input) port_input in
      let e = respond [] r in
      if is_none e
      then request_input ((r, e) ∷ []) output port_output input port_input
      else (e, (r, e) ∷ [])

abbrev is_some : Option ℕ → Bool
is_some none = false
is_some (some _) = true

-- Whether a component is in a tunnel after the calls, the earliest first: the last request that it
-- accepted tells.
abbrev pub is_tunnelled : ℕ → Bool → List Answered → Bool
is_tunnelled component before [] = before
is_tunnelled component before ((r, e) ∷ rest) =
    is_tunnelled component
      (if r.component == component && is_none e then is_some r.peer else before) rest

-- Two different components, of which the output accepts to give a tunnel up whatever it was asked
-- before, are both in the tunnel if OMX_SetupTunnel succeeds, and neither of them is if it fails.
pub setup_tunnel-all_or_nothing :
    (respond : List Answered → Request → OmxError) (output port_output input port_input : ℕ)
    → output ≢ input
    → ((asked : List Answered) → respond asked (cancel output port_output) ≡ error_none)
    → (is_tunnelled output false
          (setup_tunnel respond (some output) port_output (some input) port_input).1
        ≡ is_none (setup_tunnel respond (some output) port_output (some input) port_input).0)
      × (is_tunnelled input false
            (setup_tunnel respond (some output) port_output (some input) port_input).1
          ≡ is_none (setup_tunnel respond (some output) port_output (some input) port_input).0)
unfolding setup_tunnel request_input
setup_tunnel-all_or_nothing respond output port_output input port_input ne accept =
    let r : Request = request output port_output (some input) port_input in
    let q : Request = request input port_input (some output) port_output in
    let asked : List Answered = (r, respond [] r) ∷ [] in
    let own = ==_refl output in
    let own' = ==_refl input in
    let a : (output == input) ≡ false = ground arith in
    let b : (input == output) ≡ false = ground arith in
    elim (Bool-cases (is_none (respond [] r))) [
      | inr e ↦ (rw (e, own, e) refl, rw (e, a) (sym e))
      | inl e ↦ elim (Bool-cases (is_none (respond asked q))) [
        | inl f ↦ (rw (e, f, own, b, f, e) (ground arith), rw (e, f, a, own') (ground arith))
        | inr f ↦
            let c = accept (asked ++ (q, respond asked q) ∷ []) in
            (rw (e, f, own, b, c) (ground arith), rw (e, f, a, own', f) (ground arith))
      ]
    ]

-- Without an output component the input component is not asked at all, and the call fails.
pub setup_tunnel-input_alone :
    (respond : List Answered → Request → OmxError) (port_output : ℕ) (input : Option ℕ)
    (port_input : ℕ)
    → ((setup_tunnel respond none port_output input port_input).1 ≡ [])
      × (is_none (setup_tunnel respond none port_output input port_input).0 ≡ false)
unfolding setup_tunnel
setup_tunnel-input_alone respond port_output none port_input = (refl, refl)
setup_tunnel-input_alone respond port_output (some input) port_input = (refl, refl)
