-- ===== src/HttpEndpoint/Overtaken.antt =====
-- sockets/live/HTTPLiveEndpoint.hpp: a request whose send ends while a response is read.
use medici.Prelude.{
  ℕ, suc, ◌+◌, ◌≤◌, ◌≡◌, ap, ◌∙◌, arith, Bool, true, false, ltb, ◌==◌, if◌then◌else◌, List, ◌∷◌,
  some, ok, err, length,
}
use native.Mathlib.Numerals.{add-one}
use medici.HttpEndpoint.{HttpState, awaiting_response, buffer_overrun}
use medici.HttpEndpoint.Body.{Handlers}
use medici.HttpEndpoint.Parse.{
  has_full_header_line, read_response, handle_loop, on_payload_ready, go_on,
}
use medici.HttpEndpoint.Send.{Sends, payload_sent, run_sent}
use medici.HttpEndpoint.Content.{reading}
use medici.HttpEndpoint.Encoding.{good}

-- A client in the middle of the body of a response.
abbrev pub client_reading : HttpState → List ℕ → ℕ → HttpState
client_reading st front n = record (reading st front n) { server_side = false }

module _ {S : Type 0} (handlers : Handlers S) where
  read_part :
      (x : ℕ) (c front : List ℕ) (n : ℕ) (st : HttpState) (s : S)
      → has_full_header_line (x ∷ c) ≡ false
      → length (x ∷ c) ≤ st.inbound_size
      → on_payload_ready handlers
          (x ∷ c)
          (record (client_reading st front n) { state = awaiting_response })
          s
        ≡ (
          ok tt,
          record (client_reading st front n) { state = awaiting_response; prepended = x ∷ c },
          s,
        )
  unfolding on_payload_ready
  read_part x c front n st s part fits =
      let waiting_state = record (client_reading st front n) { state = awaiting_response } in
      let more = handle_loop handlers (suc (length c)) in
      let room : ltb st.inbound_size (length (x ∷ c)) ≡ false = ground (arith, fits) in
      let same : (suc (length c) == suc (length c)) ≡ true = ground arith in
      ap (λ (k : ℕ). handle_loop handlers k waiting_state (good (x ∷ c)) s)
        (add-one (suc (length c)))
      ∙ ap
          (λ (b : Bool). go_on handlers more (some (suc (length c))) (
            if b then read_response handlers (length c + 3) waiting_state (good (x ∷ c)) s else (
              if ltb st.inbound_size (length (x ∷ c)) then err buffer_overrun else ok tt,
              record waiting_state { prepended = x ∷ c },
              good (x ∷ c),
              s,
            )))
          part
      ∙ ap
          (λ (b : Bool). go_on handlers more (some (suc (length c))) (
            if b then err buffer_overrun else ok tt,
            record waiting_state { prepended = x ∷ c },
            good (x ∷ c),
            s,
          ))
          room
      ∙ ap
          (λ (b : Bool).
            if b
            then (ok tt, record waiting_state { prepended = x ∷ c }, s)
            else more (record waiting_state { prepended = x ∷ c }) (good (x ∷ c)) s)
          same

  -- A client that reads the body of a response forgets that it does when the send of its next request
  -- ends: bytes of the body that come then are not added to it, nor handed to the application, however many
  -- are missing. They wait for the rest of a status line, if they have no line end and fit the buffer.
  pub run_sent-on_payload_ready :
      {M : Type 0} (sends : Sends M S) (x : ℕ) (c front : List ℕ) (n : ℕ) (st : HttpState) (s : S)
      → has_full_header_line (x ∷ c) ≡ false
      → length (x ∷ c) ≤ st.inbound_size
      → on_payload_ready handlers
          (x ∷ c)
          (run_sent sends payload_sent (client_reading st front n) s).1
          s
        ≡ (
          ok tt,
          record (client_reading st front n) { state = awaiting_response; prepended = x ∷ c },
          s,
        )
  unfolding run_sent
  run_sent-on_payload_ready sends x c front n st s part fits = read_part x c front n st s part fits
