-- ===== src/Server/Router/Sending/Recording.antt =====
-- Recording a message and queueing it: neither sends anything.
use socket_to_ciphertext.Prelude.{String, ◌≡◌, refl, Option, none, some, subst}
use socket_to_ciphertext.Wire.Frame.{Frame}
use socket_to_ciphertext.Server.Env.{Env}
use socket_to_ciphertext.Server.Registry.{Conn}
use socket_to_ciphertext.Server.Store.Messages
use socket_to_ciphertext.Server.Store.Messages.{direct_conversation}
use socket_to_ciphertext.Server.Router.World.{World}
use socket_to_ciphertext.Server.Router.Delivery.{stored, record_row, queue}
use socket_to_ciphertext.Server.Router.Sending.{Sends, Sends-none, Sends-refl, Sends-option}

module _ (env : Env) {P : Conn × Frame → Type 0} where
  -- Recording a row sends nothing.
  pub record_row-Sends :
      (w : World) (outgoing : Frame) (conversation recipient : String)
      (body sealed_by : Option String) (x : World)
      → record_row env w outgoing conversation recipient body sealed_by ≡ some x
      → Sends P w x
  unfolding record_row
  record_row-Sends w outgoing conversation recipient body sealed_by x e = by_store _ w.messages e
    where
      kept : (o : Option Messages.Messages) → stored o w ≡ some x → Sends P w x
      kept none e = absurd (cc)
      kept (some t) e =
          let y : World = record w { messages = some t } in
          let p : y ≡ x = cc in subst (Sends P w) p (Sends-none w y refl refl refl refl)

      by_store :
          (g : Messages.Messages → Option Messages.Messages) (o : Option Messages.Messages)
          → (elim o [ none ↦ some w | some t ↦ stored (g t) w ]) ≡ some x
          → Sends P w x
      by_store g none e = let p : w ≡ x = cc in subst (Sends P w) p (Sends-refl w)
      by_store g (some t) e = kept (g t) e

  pub queue-Sends : (w : World) (name id : String) → Sends P w (queue env w name id)
  unfolding queue
  queue-Sends w name id =
      Sends-option w.messages w _ _ (λ _. Sends-refl w) λ t _. Sends-none w _ refl refl refl refl
