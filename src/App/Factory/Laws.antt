-- ===== src/App/Factory/Laws.antt =====
-- What a start of the process leads to: `create_app` of api/app/__init__.py with the settings of
-- the environment, against the routing table and the bounds of the configuration.
use Prim.Native.String.{◌++◌ as ◌⊹◌}
use mathlib.Core.List.{map}
use gpca_v.Prelude.{String, List, [], ◌∷◌, ◌++◌, ◌≡◌}
use gpca_v.Config.{Settings}
use gpca_v.Config.Load.Rules.{IsUsable}
use gpca_v.App.Dispatch.{openapi, path_of, url_map}
use gpca_v.App.Factory.{
  EngineArgs, FactoryArgs, Call, set_engine, set_session_factory, register_blueprint, register_spec,
  add_url_rule, build_session_factory,
}

-- the paths that a blueprint's routes get
abbrev prefixed : String → List String → List String
prefixed prefix [] = []
prefixed prefix (route ∷ routes) = (prefix ⊹ route) ∷ prefixed prefix routes

-- the paths that the application answers after some calls
abbrev pub served : List Call → List String
served [] = []
served (register_blueprint prefix routes ∷ calls) = prefixed prefix routes ++ served calls
served (add_url_rule path ∷ calls) = path ∷ served calls
served (_ ∷ calls) = served calls

abbrev pub engines : List Call → List EngineArgs
engines [] = []
engines (set_engine engine ∷ calls) = engine ∷ engines calls
engines (_ ∷ calls) = engines calls

abbrev pub factories : List Call → List FactoryArgs
factories [] = []
factories (set_session_factory factory ∷ calls) = factory ∷ factories calls
factories (_ ∷ calls) = factories calls

-- the paths that are answered when the document of the interface is generated
abbrev pub documented : List Call → List String
documented [] = []
documented (register_spec ∷ calls) = []
documented (register_blueprint prefix routes ∷ calls) = prefixed prefix routes ++ documented calls
documented (add_url_rule path ∷ calls) = path ∷ documented calls
documented (_ ∷ calls) = documented calls

-- The settings are within all their bounds. The application has the routes of the table, in its order;
-- all of them but the alias of the document are there when the document is generated; and it has one
-- engine, which its one session factory is bound to, with the URL and the time limit of the settings.
pub record IsReady (settings : Settings) (calls : List Call) : Type 0 where
  pub engine : EngineArgs
  pub usable : IsUsable settings
  pub all_served : served calls ≡ map path_of url_map
  pub all_documented : served calls ≡ documented calls ++ (path_of openapi ∷ [])
  pub one_engine : engines calls ≡ engine ∷ []
  pub one_factory : factories calls ≡ build_session_factory engine ∷ []
  pub connects_to : engine.url ≡ settings.database_url
  pub gives_up : engine.connect_timeout ≡ settings.db_connect_timeout_seconds
