-- ===== src/Web/Dispatch.antt =====
-- Which handler answers a request.
use rigcontrol.Common.{◌≢◌, ◌⊎◌, List, [], ◌∷◌, All, Bytes}
use rigcontrol.Web.{WebMethod, Handler, Handlers, gm_web_handler_register}

module _ {W : Type 0} where
  -- Handlers registered one after another, each for its method.
  unfoldable pub register_all : List (Handler W × WebMethod) → Handlers W → Handlers W
  unfolding gm_web_handler_register
  register_all [] t = t
  register_all ((h, m) ∷ hs) t = register_all hs (gm_web_handler_register h m t)

  -- A handler is `Unused` for a method and a name.
  abbrev pub IsOther : WebMethod → Bytes → Handler W × WebMethod → Type 0
  IsOther m name (h, k) = (k ≢ m) ⊎ (h.name ≢ name)

  abbrev pub NoneNamed : Bytes → List (Handler W) → Type 0
  NoneNamed name hs = All (λ h. h.name ≢ name) hs
