-- ===== src/Dispatcher/Wrapping.antt =====
-- The part of `DispatchLink` in core/xray/app/mydispatcher/default.go that asks the limiter.
use v2sp.Prelude.{nat_eq, ℤ, int_eq, lookup, Text, text_eq, suc, ◌≡◌, refl, Option, some, [], ◌∷◌}
use v2sp.Limiter.Registry.{Registry}
use v2sp.Sniffers.{Network}
use v2sp.Dispatcher.Links.{close, interrupt, ManagedWriter, add_link}
use v2sp.Dispatcher.{Writer, counter_reader, Link, Dispatcher, get_link_manager, mark_user_active}
use v2sp.Dispatcher.Admission.{
  SessionInbound, limited_user, Verdict, denied, admitted, refused, Opened, admit, wrap_link,
}
use v2sp.Dispatcher.Granted.{IsApart, IsEnlisted}
use v2sp.Dispatcher.Linking.{kept, count_user-modify}

module _ {Regexp Bucket : Type 0} (new_bucket : ℤ → ℤ → ℤ → Bucket)
    (session : Option SessionInbound) (network : Network) (now : ℤ) (outbound : Link Bucket)
    (registry : Registry Regexp Bucket) (d : Dispatcher Bucket) where
  abbrev wrapping : Opened Regexp Bucket
  wrapping = wrap_link new_bucket session network now outbound registry d

  -- What the verdict of the limiter decides.
  unfoldable pub IsWrapped : SessionInbound → Text → Verdict Bucket → Type 0
  IsWrapped inbound email (denied e) =
      (wrapping.result ≡ refused e)
      × (wrapping.dispatcher ≡ d)
      × (wrapping.effects ≡ (close outbound.writer ∷ interrupt outbound.reader ∷ []))
  IsWrapped inbound email (admitted p bucket) =
      IsEnlisted email d wrapping.dispatcher
      × (lookup email wrapping.dispatcher.conn_states
          ≡ some (record { tag = inbound.tag; last_active = now }))
      × (wrapping.effects ≡ [])

  wrap_link-verdict :
      (inbound : SessionInbound) (email : Text) (registry' : Registry Regexp Bucket)
      (v : Verdict Bucket)
      → IsApart d
      → limited_user session ≡ some (inbound, email)
      → admit new_bucket inbound email network now registry ≡ (registry', v)
      → IsWrapped inbound email v
  unfolding IsWrapped wrap_link
  wrap_link-verdict inbound email registry' (denied e) apart user h =
      rw (wrap_link, user, h) (refl, refl, refl)
  wrap_link-verdict inbound email registry' (admitted p bucket) apart user h =
      let (d1, q) = get_link_manager email d in
      let d2 = mark_user_active email inbound.tag now d1 in
      let managed : ManagedWriter (Writer Bucket) = record {
        writer = outbound.writer;
        create_time = now;
      } in
      let reader = counter_reader inbound.tag email outbound.reader in
      let (enlisted, seen) =
        kept email inbound.tag now d2.next_writer (suc d2.next_writer) managed reader d apart in
      let swap =
        count_user-modify inbound.tag email q (add_link d2.next_writer managed reader)
          (record d2 { next_writer = suc d2.next_writer }) in
      rw (wrap_link, user, h, swap) (enlisted, seen, refl)

  -- A link of a user with an email that the limiter denies is closed, and the dispatcher is as
  -- before. When it is admitted, the user has one connection more in a link manager of its own, is
  -- seen active at this moment under the inbound's tag, and no other user's connections change.
  pub wrap_link_lem :
      (inbound : SessionInbound) (email : Text)
      → IsApart d
      → limited_user session ≡ some (inbound, email)
      → IsWrapped inbound email (admit new_bucket inbound email network now registry).1
  wrap_link_lem inbound email apart user =
      wrap_link-verdict inbound email (admit new_bucket inbound email network now registry).0
        (admit new_bucket inbound email network now registry).1 apart user refl
