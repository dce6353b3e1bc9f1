-- ===== src/Client/Success.antt =====
-- About the success of watch, unwatch, pause and unpause of bin/inotispyctl.c.
use inotispy.Prelude.{
  ◌≡◌, refl, sym, ◌∙◌, ap, subst, ◌↔◌, Bool, true, false, Option, none, some, [], ◌∷◌, ◌++◌,
}
use inotispy.Text.{Text, codes, newline}
use inotispy.Client.{Link, ReplyJson, Run, done, exited, Client, continue, pure}
use inotispy.Client.Texts.{client_path_text}
use inotispy.Client.Messages.{
  JObj, parsed, parse_json, report, handle_error, after_send, send_request, after_recv, get_reply,
}
use inotispy.Client.Commands.{path_command}

-- The part that comes before a result.
continue_done :
    {W A B : Type 0} (r : Run W A) (k : A → Client W B) (b : B) (w : W) (out : Text)
    → continue r k ≡ done b w out
    → (a : A) × (w₁ : W) × (out₁ : Text) × (r ≡ done a w₁ out₁) × (k a w₁ out₁ ≡ done b w out)
continue_done (done a w₁ out₁) k b w out e = (a, w₁, out₁, refl, e)
continue_done (exited status w₁ out₁) k b w out e = cc

done_injective :
    {W A : Type 0} {a : A} {w w' : W} {out out' : Text}
    → done a w out ≡ done a w' out'
    → (w ≡ w') × (out ≡ out')
done_injective e = (cc, cc)

module _ (L : Link) (J : ReplyJson) where
  -- A reply that parses and has no "error".
  abbrev pub IsFine : Text → Type 0
  IsFine reply =
      (obj : JObj L J) × (J.json_c.tokener_parse reply ≡ some obj)
      × (J.json_c.object_get obj (codes "error") ≡ none)

  -- The request is sent, and such a reply is received.
  abbrev pub Accepted : Text → L.World → L.World → Type 0
  Accepted request w w' =
      (w₁ : L.World) × (reply : Text) × (L.zmq_send w request ≡ (true, w₁))
      × (L.zmq_recv w₁ ≡ (some reply, w'))
      × IsFine reply

  report_done :
      (error : Option (JObj L J)) (message : Text) (w : L.World) (out : Text) (reply : Text)
      (w' : L.World) (out' : Text)
      → continue (report L J error w out) (λ _. pure message) ≡ done reply w' out'
      → (error ≡ none) × (message ≡ reply) × (w ≡ w') × (out ≡ out')
  report_done none message w out reply w' out' e = (refl, cc, cc, cc)
  report_done (some error) message w out reply w' out' e = cc

  parsed_done :
      (o : Option (JObj L J)) (message : Text) (w : L.World) (out : Text) (reply : Text)
      (w' : L.World) (out' : Text)
      → continue
          (continue
            (parsed L J message o w out)
            (λ obj. report L J (J.json_c.object_get obj (codes "error"))))
          (λ _. pure message)
        ≡ done reply w' out'
      → (message ≡ reply)
        × (w ≡ w')
        × (out ≡ out')
        × (obj : JObj L J) × (o ≡ some obj)
        × (J.json_c.object_get obj (codes "error") ≡ none)
  parsed_done none message w out reply w' out' e = cc
  parsed_done (some obj) message w out reply w' out' e =
      let (none_there, m, ww, oo) =
        report_done (J.json_c.object_get obj (codes "error")) message w out reply w' out' e in
      (m, ww, oo, obj, refl, none_there)

  after_recv_done :
      (message : Option Text) (w : L.World) (out : Text) (reply : Text) (w' : L.World) (out' : Text)
      → after_recv L J message w out ≡ done reply w' out'
      → (message ≡ some reply) × (w ≡ w') × (out ≡ out') × IsFine reply
  unfolding handle_error parse_json
  after_recv_done none w out reply w' out' e = cc
  after_recv_done (some message) w out reply w' out' e =
      let (m, ww, oo, obj, parses, fine) =
        parsed_done (J.json_c.tokener_parse message) message w out reply w' out' e in
      (ap some m, ww, oo, subst IsFine m (obj, parses, fine))

  after_send_done :
      (sent : Bool) (w : L.World) (out : Text) (w' : L.World) (out' : Text)
      → after_send L J sent w out ≡ done tt w' out'
      → (sent ≡ true) × (w ≡ w') × (out ≡ out')
  after_send_done true w out w' out' e = (refl, cc, cc)
  after_send_done false w out w' out' e = cc

  -- The line that tells of the success.
  abbrev pub success_line : Text → Text → Text
  success_line path words = codes "Root " ++ (path ++ words) ++ newline ∷ []

  path_command_forward :
      (call words path : Text) (w : L.World) (out : Text) (w' : L.World) (out' : Text)
      → path_command L J call words path w out ≡ done tt w' out'
      → Accepted (client_path_text call path) w w' × (out' ≡ out ++ success_line path words)
  unfolding path_command send_request get_reply
  path_command_forward call words path w out w' out' e =
      let request = client_path_text call path in
      let (u, w₁, out₁, sends, e₁) =
        continue_done (send_request L J request w out) _ tt w' out' e in
      let (reply, w₂, out₂, receives, e₂) = continue_done (get_reply L J w₁ out₁) _ tt w' out' e₁ in
      let (is_sent, ww, oo) =
        after_send_done ((L.zmq_send w request).0) ((L.zmq_send w request).1) out w₁ out₁ sends in
      let (got, ww', oo', fine) =
        after_recv_done ((L.zmq_recv w₁).0) ((L.zmq_recv w₁).1) out₁ reply w₂ out₂ receives in
      let (ends, prints) = done_injective e₂ in
      (
        (w₁, reply, (λ i. (is_sent i, ww i)), (λ i. (got i, (ww' ∙ ends) i)), fine),
        sym prints ∙ ap (λ o. o ++ success_line path words) (sym (oo ∙ oo')),
      )

  path_command_backward :
      (call words path : Text) (w : L.World) (out : Text) (w' : L.World)
      → Accepted (client_path_text call path) w w'
      → path_command L J call words path w out ≡ done tt w' (out ++ success_line path words)
  unfolding path_command send_request get_reply handle_error parse_json
  path_command_backward call words path w out w' (w₁, reply, sends, receives, (obj, parses, fine)) =
      rw (sends, receives, parses, fine) refl

  -- The client's watch, unwatch, pause and unpause end without an exit, with the line of success
  -- printed, if and only if the request was sent and a reply was received that parses and has no
  -- "error".
  pub path_command_done :
      (call words path : Text) (w : L.World) (out : Text) (w' : L.World) (out' : Text)
      → (path_command L J call words path w out ≡ done tt w' out')
        ↔ (Accepted (client_path_text call path) w w' × (out' ≡ out ++ success_line path words))
  path_command_done call words path w out w' out' = (
    path_command_forward call words path w out w' out',
    λ (accepted, e).
        path_command_backward call words path w out w' accepted ∙ ap (done tt w') (sym e),
  )
