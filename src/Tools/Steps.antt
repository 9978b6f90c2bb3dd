-- ===== src/Tools/Steps.antt =====
-- What a tool of src/mcp.rs did, step by step, when it answered without an error.
use carddav_mcp.Base.{Option, none, some, ◌≡◌, refl, sym, ap, arith, Result, ok, err}
use carddav_mcp.Base.Str.{Text}
use carddav_mcp.Base.Steps.{after_step, after_step-Went, lift-Went}
use carddav_mcp.Rpc.{ErrorData}
use carddav_mcp.RateLimit.{Governor, Category}
use carddav_mcp.Tools.{
  CardDavError, Client, Context, Service, Step, ok_or, missing_token_err, missing_identity_err,
  call, rate_limit_check, charge_limiter, react_to_auth_expiry, map_err,
}

pub ok_or-some : {A : Type 0} (o : Option A) (e : ErrorData) (a : A) → ok_or o e ≡ ok a → o ≡ some a
ok_or-some none e a h = cc
ok_or-some (some x) e a h = ground arith

module _ (g : Governor) (c : Client) where
  open c use {World}

  pub call-ok :
      {A : Type 0} (f : World → World × Result CardDavError A) (s s' : Service g World) (a : A)
      → call g c f s ≡ (s', ok a)
      → f s.world ≡ (s'.world, ok a)
  call-ok {A = A} f s s' a h = called (f s.world) refl h
    where
      called :
          (r : World × Result CardDavError A)
          → f s.world ≡ r
          → ◌≡◌ {A = Service g World × Result ErrorData A}
              (record s { world = r.0 }, map_err r.1)
              (s', ok a)
          → f s.world ≡ (s'.world, ok a)
      called (w, ok b) e k = ground (arith, ap (λ x. x.0.world) k)
      called (w, err b) e k = ground arith

  pub record CallWent {A B : Type 0} (m : World → World × Result CardDavError A)
      (f : A → Step (Service g World) B) (s s' : Service g World) (b : B) : Type 0 where
    pub between : Service g World
    pub value : A
    pub called_is : m s.world ≡ (between.world, ok value)
    pub rest_is : f value between ≡ (s', ok b)

  pub call-CallWent :
      {A B : Type 0} {f : A → Step (Service g World) B} {s' : Service g World} {b : B}
      (m : World → World × Result CardDavError A) (s : Service g World)
      → after_step (call g c m s) f ≡ (s', ok b)
      → CallWent m f s s' b
  call-CallWent m s h =
      let w = after_step-Went _ h in
      record {
        between = w.between;
        value = w.value;
        called_is = call-ok m s w.between w.value w.first_is;
        rest_is = w.rest_is;
      }

  pub react_to_auth_expiry-ok :
      {A : Type 0} (ctx : Context) (out : Service g World × Result ErrorData A)
      (s' : Service g World) (a : A)
      → react_to_auth_expiry g c ctx out ≡ (s', ok a)
      → out ≡ (s', ok a)
  unfolding react_to_auth_expiry
  react_to_auth_expiry-ok ctx (s, ok b) s' a h = h
  react_to_auth_expiry-ok ctx (s, err e) s' a h = ground arith

  -- What a rate-limit check that allows has found and done.
  pub record IsAdmitted (ctx : Context) (s s' : Service g World) : Type 0 where
    pub token : Text
    pub token_is : ctx.token ≡ some token
    pub same_world : s'.world ≡ s.world

  pub rate_limit_check-IsAdmitted :
      (ctx : Context) (category : Category) (s s' : Service g World) (t : Unit {0})
      → rate_limit_check g c ctx category s ≡ (s', ok t)
      → IsAdmitted ctx s s'
  unfolding rate_limit_check charge_limiter
  rate_limit_check-IsAdmitted ctx category s s' t h =
      let (token, e, k) = lift-Went _ (ok_or ctx.token missing_token_err) s h in
      let (user_id, e', l) = lift-Went _ (ok_or ctx.user_id missing_identity_err) s k in
      record {
        token = token;
        token_is = ok_or-some ctx.token missing_token_err token e;
        same_world = sym (ap (λ x. x.0.world) l);
      }
