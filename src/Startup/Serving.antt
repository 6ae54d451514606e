-- ===== src/Startup/Serving.antt =====
-- When the process serves, what it works on is installed and its controllers are registered.
use cma_ssh.Prelude.{String, ◌≡◌, refl, List, [], ◌∷◌}
use cma_ssh.Prelude.Int.{ℤ}
use cma_ssh.Prelude.Go.{Result, ok, err, Call, lift}
use cma_ssh.Prelude.Go.Ends.{Final, Final-map, Final-fault, continue-Final, call-then, lift-then}
use cma_ssh.Startup.{
  Kind, Handler, Controller, controllers, machine_controller, crds, Runtime,
  install_crds_if_not_found, add_watches, add, add_to_manager, client_of, new_client, listener_of,
  create_web_server, port_number, operator,
}
use cma_ssh.Startup.Crds.{CrdsPresent, install_each-CrdsPresent}

module _ (r : Runtime) where
  -- The controller was made and watches these kinds, in this order.
  abbrev pub Watched : r.Manager → String → List (Kind × Handler) → r.State → r.State → Type 0
  Watched mgr name [] s t = s ≡ t
  Watched mgr name ((kind, handler) ∷ rest) s t =
      (s₁ : r.State) × (r.watch mgr name kind handler s ≡ (ok tt, s₁)) × Watched mgr name rest s₁ t

  abbrev pub Added : r.Manager → Controller → r.State → r.State → Type 0
  Added mgr c s t =
      (s₁ : r.State) × (r.new_controller mgr c.name s ≡ (ok tt, s₁))
      × Watched mgr c.name c.watches s₁ t

  abbrev pub AllAdded : r.Manager → List Controller → r.State → r.State → Type 0
  AllAdded mgr [] s t = s ≡ t
  AllAdded mgr (c ∷ cs) s t = (s₁ : r.State) × Added mgr c s s₁ × AllAdded mgr cs s₁ t

  add_watches-Watched :
      (mgr : r.Manager) (name : String) (watches : List (Kind × Handler)) (s : r.State)
      → Final Unit (λ _ t. Watched mgr name watches s t) (add_watches r mgr name watches s)
  unfolding add_watches
  add_watches-Watched mgr name [] s = refl
  add_watches-Watched mgr name ((kind, handler) ∷ rest) s =
      call-then Unit (λ _ t. Watched mgr name ((kind, handler) ∷ rest) s t)
        (r.watch mgr name kind handler) _ s
        (λ _ s₁ c.
          Final-map Unit (λ _ t. Watched mgr name rest s₁ t)
            (λ _ t. Watched mgr name ((kind, handler) ∷ rest) s t) _
            (add_watches-Watched mgr name rest s₁) (λ _ t h. (s₁, c, h)))

  add-Added :
      (mgr : r.Manager) (c : Controller) (s : r.State)
      → Final Unit (λ _ t. Added mgr c s t) (add r mgr c s)
  unfolding add
  add-Added mgr c s =
      call-then Unit (λ _ t. Added mgr c s t) (r.new_controller mgr c.name) _ s
        (λ _ s₁ n.
          Final-map Unit (λ _ t. Watched mgr c.name c.watches s₁ t) (λ _ t. Added mgr c s t) _
            (add_watches-Watched mgr c.name c.watches s₁) (λ _ t h. (s₁, n, h)))

  add_to_manager-AllAdded :
      (mgr : r.Manager) (list : List Controller) (s : r.State)
      → Final Unit (λ _ t. AllAdded mgr list s t) (add_to_manager r mgr list s)
  unfolding add_to_manager
  add_to_manager-AllAdded mgr [] s = refl
  add_to_manager-AllAdded mgr (c ∷ cs) s =
      continue-Final Unit (λ _ t. Added mgr c s t) (λ _ t. AllAdded mgr (c ∷ cs) s t) _ _ _
        (add-Added mgr c s)
        (λ _ a.
          Final-map Unit (λ _ t. AllAdded mgr cs _ t) (λ _ t. AllAdded mgr (c ∷ cs) s t) _
            (add_to_manager-AllAdded mgr cs _) (λ _ t h. (_, a, h)))

  -- The definitions of the resources were there or were created before the manager was made; the
  -- three controllers and, with a client of MAAS, that of machines were registered with it; and then
  -- the servers and the manager were started on the listener.
  abbrev pub Serving : r.State → r.State → Type 0
  Serving s t =
      (cfg : r.Config) × (cs : r.Clientset) × (mgr : r.Manager) × (maas : r.MaasController)
      × (conn : r.Listener) × (s₁ s₂ s₃ s₄ s₅ s₆ s₇ s₈ : r.State) × (r.get_config s ≡ (ok cfg, s₁))
      × (r.new_for_config cfg ≡ ok cs)
      × CrdsPresent r cs crds s₁ s₂
      × (r.new_manager cfg s₂ ≡ (ok mgr, s₃))
      × (r.add_to_scheme mgr s₃ ≡ (ok tt, s₄))
      × AllAdded mgr controllers s₄ s₅
      × (r.new_maas_controller (r.get_string "api_url") (r.get_string "api_key") s₅ ≡ (ok maas, s₆))
      × Added mgr machine_controller s₆ s₇
      × (r.listen (port_number r r.get_port) s₇ ≡ (ok conn, s₈))
      × (r.serve mgr maas conn s₈ ≡ (ok tt, t))

  abbrev CrdsReady : r.Config → r.State → r.State → Type 0
  CrdsReady cfg s t =
      (cs : r.Clientset) × (r.new_for_config cfg ≡ ok cs) × CrdsPresent r cs crds s t

  install_crds-CrdsReady :
      (cfg : r.Config) (s : r.State)
      → Final Unit (λ _ t. CrdsReady cfg s t) (install_crds_if_not_found r cfg s)
  unfolding install_crds_if_not_found
  install_crds-CrdsReady cfg s =
      lift-then Unit (λ _ t. CrdsReady cfg s t) (r.new_for_config cfg) _ s
        (λ cs n.
          Final-fault Unit (λ _ t. CrdsReady cfg s t) _
            (Final-map ⊥ (λ _ t. CrdsPresent r cs crds s t) (λ _ t. CrdsReady cfg s t) _
              (install_each-CrdsPresent r cs crds s) (λ _ t h. (cs, n, h))))

  client_of-Final :
      (s : r.State) (x : Result r.MaasController) (t : r.State)
      → r.new_maas_controller (r.get_string "api_url") (r.get_string "api_key") s ≡ (x, t)
      → Final Unit
          (λ maas u.
            r.new_maas_controller (r.get_string "api_url") (r.get_string "api_key") s
            ≡ (ok maas, u))
          (client_of r x t)
  client_of-Final s (ok maas) t h = h
  client_of-Final s (err e) t h = tt

  new_client-Final :
      (s : r.State)
      → Final Unit
          (λ maas u.
            r.new_maas_controller (r.get_string "api_url") (r.get_string "api_key") s
            ≡ (ok maas, u))
          (new_client r (r.get_string "api_url") (r.get_string "api_key") s)
  unfolding new_client
  new_client-Final s = client_of-Final s _ _ refl

  listener_of-Final :
      (port : ℤ) (s : r.State) (x : Result r.Listener) (t : r.State)
      → r.listen port s ≡ (x, t)
      → Final Unit (λ conn u. r.listen port s ≡ (ok conn, u)) (listener_of r x t)
  listener_of-Final port s (ok conn) t h = h
  listener_of-Final port s (err e) t h = tt

  create_web_server-Final :
      (port : ℤ) (s : r.State)
      → Final Unit (λ conn u. r.listen port s ≡ (ok conn, u)) (create_web_server r port s)
  unfolding create_web_server
  create_web_server-Final port s = listener_of-Final port s _ _ refl

  called-Serving :
      (s : r.State) (f : Call r.State (Unit {0})) (s₁ : r.State) (x : Result (Unit {0}))
      (t : r.State)
      → f s₁ ≡ (x, t)
      → ((u : r.State) → f s₁ ≡ (ok tt, u) → Serving s u)
      → Final Unit (λ _ t. Serving s t) (lift x, t)
  called-Serving s f s₁ (ok _) t e h = h t e
  called-Serving s f s₁ (err _) t e h = tt

  -- Whatever the libraries answer, when the process comes to serve, the four definitions were there
  -- or were created from their files before the manager was made, every controller was registered
  -- with its watches in order, and the listener was opened last.
  pub operator-Serving : (s : r.State) → Final Unit (λ _ t. Serving s t) (operator r s)
  unfolding operator add_to_manager
  operator-Serving s =
      call-then Unit (λ _ t. Serving s t) r.get_config _ s
        (λ cfg s₁ a.
          continue-Final Unit (λ _ t. CrdsReady cfg s₁ t) (λ _ t. Serving s t) _ _ _
            (install_crds-CrdsReady cfg s₁)
            (λ _ (cs, n, p).
              call-then Unit (λ _ t. Serving s t) (r.new_manager cfg) _ _
                (λ mgr s₃ b.
                  call-then Unit (λ _ t. Serving s t) (r.add_to_scheme mgr) _ s₃
                    (λ _ s₄ c.
                      continue-Final Unit (λ _ t. AllAdded mgr controllers s₄ t)
                        (λ _ t. Serving s t) _ _ _ (add_to_manager-AllAdded mgr controllers s₄)
                        (λ _ d.
                          continue-Final Unit
                            (λ maas u.
                              r.new_maas_controller (r.get_string "api_url")
                                (r.get_string "api_key") _
                              ≡ (ok maas, u))
                            (λ _ t. Serving s t) _ _ _ (new_client-Final _)
                            (λ maas e.
                              continue-Final Unit (λ _ t. Added mgr machine_controller _ t)
                                (λ _ t. Serving s t) _ _ _ (add-Added mgr machine_controller _)
                                (λ _ f.
                                  continue-Final Unit
                                    (λ conn u. r.listen (port_number r r.get_port) _ ≡ (ok conn, u))
                                    (λ _ t. Serving s t) _ _ _
                                    (create_web_server-Final (port_number r r.get_port) _)
                                    (λ conn g.
                                      called-Serving s (r.serve mgr maas conn) _ _ _ refl (λ t h. (
                                        cfg, cs, mgr, maas, conn, s₁, _, s₃, s₄, _, _, _, _, a, n,
                                        p, b, c, d, e, f, g, h,
                                      ))))))))))
