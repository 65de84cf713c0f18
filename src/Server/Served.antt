-- ===== src/Server/Served.antt =====
-- Which services the routers of a configuration have.
use grpc_server_rust.Prelude.{
  ◌≡◌, refl, ap, ◌∙◌, arith, false, not, ◌&&◌, Option, List, [], ◌∷◌, map, All, retain,
}
use grpc_server_rust.Models.{DialoutMode, normal, gpb, gnmi, udp, is_udp, ServerConfig, grpc_modes}
use grpc_server_rust.Registry.{Registry}
use grpc_server_rust.Server.{contains, router_services}
use grpc_server_rust.Server.Router.{router_services-contains}
use grpc_server_rust.Server.Services.{Service, dialout, dialout_v3, publish, services_of}

abbrev pub kind : {D : Type 0} → Service D → DialoutMode
kind (dialout s) = normal
kind (dialout_v3 s) = gpb
kind (publish s) = gnmi

router_services-grpc : (ms : List DialoutMode) → All (λ m. is_udp m ≡ false) (router_services ms)
unfolding router_services is_udp
router_services-grpc ms = ground arith

contains-retain :
    (ms : List DialoutMode) (m : DialoutMode)
    → (contains (retain (λ a. not (is_udp a)) ms) m && not (is_udp m))
      ≡ (contains ms m && not (is_udp m))
unfolding contains is_udp
contains-retain [] m = refl
contains-retain (normal ∷ ms) m = ground (arith, contains-retain ms m)
contains-retain (gpb ∷ ms) m = ground (arith, contains-retain ms m)
contains-retain (gnmi ∷ ms) m = ground (arith, contains-retain ms m)
contains-retain (udp ∷ ms) normal = contains-retain ms normal
contains-retain (udp ∷ ms) gpb = contains-retain ms gpb
contains-retain (udp ∷ ms) gnmi = contains-retain ms gnmi
contains-retain (udp ∷ ms) udp = ground (arith, contains-retain ms udp)

kind-services_of :
    {D : Type 0} (c : ServerConfig) (registry : Option (Registry D)) (ms : List DialoutMode)
    → All (λ m. is_udp m ≡ false) ms
    → map kind (services_of c registry ms) ≡ ms
unfolding services_of is_udp
kind-services_of c registry [] h = refl
kind-services_of c registry (normal ∷ ms) (h, hs) =
    ap (λ l. normal ∷ l) (kind-services_of c registry ms hs)
kind-services_of c registry (gpb ∷ ms) (h, hs) =
    ap (λ l. gpb ∷ l) (kind-services_of c registry ms hs)
kind-services_of c registry (gnmi ∷ ms) (h, hs) =
    ap (λ l. gnmi ∷ l) (kind-services_of c registry ms hs)
kind-services_of c registry (udp ∷ ms) (h, hs) = cc h

pub services_of-contains :
    {D : Type 0} (c : ServerConfig) (registry : Option (Registry D)) (m : DialoutMode)
    → contains (map kind (services_of c registry (router_services (grpc_modes c)))) m
      ≡ (contains c.modes m && not (is_udp m))
unfolding grpc_modes
services_of-contains c registry m =
    let ms = retain (λ a. not (is_udp a)) c.modes in
    ap (λ l. contains l m)
      (kind-services_of c registry (router_services ms) (router_services-grpc ms))
    ∙ router_services-contains ms m
    ∙ contains-retain c.modes m
