-- ===== src/Communication/Binding.antt =====
-- `bindCommunicationLayer` of src/di/container.ts: which implementation the settings choose, and the
-- addresses of its clients.
use Prim.Native.Char.{Char, code}
use arcana_cloud_nodejs.Base.{
  String, ◌||◌, Option, none, some, List, [], ◌∷◌, str_eq, ◌==◌, if◌then◌else◌,
}
use arcana_cloud_nodejs.Communication.Interfaces.{
  DeploymentMode, monolithic, layered, microservices, CommunicationProtocol, direct, http, grpc,
}

pub data Binding : Type 0 where
  to_direct : Binding
  to_http to_grpc : List String → Binding

-- the variables of `process.env`, with `none` for one that is not set
pub record Environment : Type 0 where
  pub deployment_mode : Option String
  pub communication_protocol : Option String
  pub deployment_layer : Option String
  pub service_urls : Option String
  pub repository_urls : Option String

-- the values of the enumerations
abbrev pub mode_value : DeploymentMode → String
mode_value monolithic = "monolithic"
mode_value layered = "layered"
mode_value microservices = "microservices"

abbrev pub protocol_value : CommunicationProtocol → String
protocol_value direct = "direct"
protocol_value http = "http"
protocol_value grpc = "grpc"

-- `value || fallback` of a text
abbrev pub text_or : Option String → String → String
text_or none fallback = fallback
text_or (some value) fallback = if str_eq value "" then fallback else value

abbrev onto_head : Char → List String → List String
onto_head c [] = String.◌∷◌ c String.[] ∷ []
onto_head c (s ∷ ss) = String.◌∷◌ c s ∷ ss

-- `text.split(',')`
abbrev pub split_commas : String → List String
split_commas String.[] = "" ∷ []
split_commas (String.◌∷◌ c s) =
    let rest = split_commas s in if code c == 44 then "" ∷ rest else onto_head c rest

-- `urls?.split(',') || [fallback]`
abbrev pub urls_or : Option String → String → List String
urls_or none fallback = fallback ∷ []
urls_or (some urls) fallback = split_commas urls

abbrev pub chosen_mode : Environment → String
chosen_mode env = text_or env.deployment_mode (mode_value monolithic)

abbrev pub chosen_protocol : Environment → String
chosen_protocol env = text_or env.communication_protocol (protocol_value grpc)

abbrev pub chosen_layer : Environment → String
chosen_layer env = text_or env.deployment_layer "monolithic"

unfoldable pub bind_service : Environment → Binding
bind_service env =
    if str_eq (chosen_mode env) (mode_value monolithic) || str_eq (chosen_layer env) "service"
    then to_direct
    else if str_eq (chosen_protocol env) (protocol_value http)
    then to_http (urls_or env.service_urls "http://localhost:5001")
    else to_grpc (urls_or env.service_urls "localhost:50051")

unfoldable pub bind_repository : Environment → Binding
bind_repository env =
    if str_eq (chosen_mode env) (mode_value monolithic) || str_eq (chosen_layer env) "repository"
    then to_direct
    else if str_eq (chosen_protocol env) (protocol_value http)
    then to_http (urls_or env.repository_urls "http://localhost:5002")
    else to_grpc (urls_or env.repository_urls "localhost:50052")
