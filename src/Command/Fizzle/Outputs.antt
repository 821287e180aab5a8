-- ===== src/Command/Fizzle/Outputs.antt =====
-- What `fizzle outputs` prints of a stream.
use fizzled_go.Prelude.{
  ◌≡◌, sym, ap, ◌∙◌, Bytes, Option, none, some, List, [], ◌∷◌, ◌++◌, append_assoc, append-nil,
}
use fizzled_go.Errors.{Result, ok, ◌>>=◌, GoError, bind-eq-ok, eq_of_ok_eq}
use fizzled_go.Server.Rpc.{Code, reply}
use fizzled_go.Server.Service.{WireTick}
use fizzled_go.Client.{sentinel_for}
use fizzled_go.Client.Connection.{Environment, Wire, TickStream}
use fizzled_go.Client.Streaming.{tick_json, receive, stream_output}
use fizzled_go.Command.Fizzle.{
  Printed, line, Writer, outputs_command, print_tick, write_line, execute_command,
}

abbrev pub encode_all : Environment → List WireTick → Result (List Bytes)
encode_all env [] = ok []
encode_all env (tick ∷ ticks) = do
  text ← tick_json env tick
  texts ← encode_all env ticks
  ok (text ∷ texts)

abbrev pub lines : List Bytes → List Printed
lines [] = []
lines (text ∷ texts) = line text ∷ lines texts

-- A writer that takes every text.
abbrev pub open_writer : Writer
open_writer out text = none

abbrev pub ending_error : Option (Code × Bytes) → Option GoError
ending_error none = none
ending_error (some (code, message)) = some (sentinel_for code ∷ [])

nothing_printed : (out : List Printed) {texts : List Bytes} → [] ≡ texts → out ≡ out ++ lines texts
nothing_printed out h = sym (append-nil out) ∙ ap (λ ts. out ++ lines ts) h

receive_prints :
    (env : Environment) (ticks : List WireTick) (ending : Option (Code × Bytes))
    (out : List Printed) {texts : List Bytes}
    → encode_all env ticks ≡ ok texts
    → receive env (print_tick open_writer) ticks ending (out, none)
      ≡ (out ++ lines texts, ending_error ending)
unfolding receive print_tick write_line
receive_prints env [] none out h = ap (λ o. (o, none)) (nothing_printed out (eq_of_ok_eq h))
receive_prints env [] (some (code, message)) out h =
    ap (λ o. (o, some (sentinel_for code ∷ []))) (nothing_printed out (eq_of_ok_eq h))
receive_prints env (tick ∷ ticks) ending out h =
    let (text, p, q) =
      bind-eq-ok (tick_json env tick) (λ text. encode_all env ticks >>= λ texts. ok (text ∷ texts))
        h in
    let (texts, r, e) = bind-eq-ok (encode_all env ticks) (λ texts. ok (text ∷ texts)) q in
    let printed : (out ++ line text ∷ []) ++ lines texts ≡ out ++ lines _ =
      append_assoc out (line text ∷ []) (lines texts)
      ∙ ap (λ ts. out ++ lines ts) (eq_of_ok_eq e) in
    rw p (
      receive_prints env ticks ending (out ++ line text ∷ []) r
      ∙ ap (λ o. (o, ending_error ending)) printed)

-- When every tick of a stream can be encoded, and stdout takes every text, `fizzle outputs` prints
-- the encodings of the ticks that it receives, each on a line of its own, in their order, and fails
-- with the status that the stream ends with, if it ends with one.
pub outputs_prints :
    (env : Environment) (w : Wire) (job_id : Bytes) (stream : TickStream) {texts : List Bytes}
    → w.open_stream job_id ≡ reply stream
    → encode_all env stream.ticks ≡ ok texts
    → execute_command env w open_writer (outputs_command job_id)
      ≡ (lines texts, ending_error stream.ending)
unfolding execute_command stream_output
outputs_prints env w job_id stream opened h =
    rw opened (receive_prints env stream.ticks stream.ending [] h)
