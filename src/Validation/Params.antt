-- ===== src/Validation/Params.antt =====
-- crates/lingxi-spec/src/validation.rs: the parameters of nodes, and the table of assets. `AssetRef` is
-- checked by `validate` of model.rs.
use Prim.Native.String.{len}
use ling_xi_agent.Prelude.{
  ℕ, suc, String, Bool, true, false, not, ◌&&◌, Option, none, some, List, [], ◌∷◌, ◌++◌, Dict,
  lookup, contains_key, any, nat_eq, is_blank, ◌==◌,
}
use ling_xi_agent.Protocol.Json.{Value, bool, string, array, Items, no_items, item}
use ling_xi_agent.Protocol.Envelope.{all_hex}
use ling_xi_agent.Context.Message.{AssetRef}
use ling_xi_agent.Workflow.Ports.{
  NodeSpec, ParamSpec, ParamKind, text, text_area, boolean, select, asset, param_spec,
}
use ling_xi_agent.Workflow.Model.{Workflow, WorkflowNode}
use ling_xi_agent.Validation.Paths.{text_of, indexed}
use ling_xi_agent.Validation.Issues.{
  ValidationIssue, error_at, warning_at, error_if, param_unknown, param_missing,
  param_type_mismatch, param_invalid_option, asset_unknown, asset_invalid,
}

-- the paths of a parameter of the node at a path
abbrev pub param_path : String → String → String
param_path path name = text_of (path ∷ ".params." ∷ name ∷ [])

unfoldable pub unknown_params : NodeSpec → String → Dict Value → List ValidationIssue
unfolding param_spec
unknown_params spec path [] = []
unknown_params spec path ((key, _) ∷ rest) = elim (param_spec spec key) [
  | some _ ↦ unknown_params spec path rest
  | none ↦ warning_at param_unknown (param_path path key) ∷ unknown_params spec path rest
]

unfoldable pub check_asset_ids : Dict AssetRef → String → ℕ → Items → List ValidationIssue
unfolding indexed
check_asset_ids assets path index no_items = []
check_asset_ids assets path index (item value rest) =
    elim value [
      | string id ↦ error_if (not (contains_key id assets)) asset_unknown (indexed path index)
      | _ ↦ error_at param_type_mismatch (indexed path index) ∷ []
    ]
    ++ check_asset_ids assets path (suc index) rest

unfoldable pub validate_asset_param : Value → Dict AssetRef → String → List ValidationIssue
unfolding check_asset_ids
validate_asset_param value assets path = elim value [
  | array items ↦ check_asset_ids assets path 0 items
  | _ ↦ error_at param_type_mismatch path ∷ []
]

abbrev is_text : Value → Bool
is_text value = elim value [ string _ ↦ true | _ ↦ false ]

-- `type_ok`
unfoldable pub fits_kind : ParamKind → Value → Bool
fits_kind kind value = elim kind [
  | text ↦ is_text value
  | text_area ↦ is_text value
  | select ↦ is_text value
  | ParamKind.number ↦ elim value [ Value.number _ ↦ true | _ ↦ false ]
  | boolean ↦ elim value [ bool _ ↦ true | _ ↦ false ]
  | asset ↦ true
]

abbrev is_option : List String → Value → Bool
is_option options value = elim value [ string raw ↦ any (λ o. o == raw) options | _ ↦ true ]

unfoldable pub check_param_value : ParamSpec → Value → Dict AssetRef → String → List ValidationIssue
unfolding validate_asset_param fits_kind
check_param_value param value assets path =
    let at_param = param_path path param.name in
    elim param.kind [
      | asset ↦ validate_asset_param value assets at_param
      | select ↦ elim (fits_kind select value) [
        | false ↦ error_at param_type_mismatch at_param ∷ []
        | true ↦ error_if (not (is_option param.options value)) param_invalid_option at_param
      ]
      | kind ↦ error_if (not (fits_kind kind value)) param_type_mismatch at_param
    ]

-- `node.params.get(name).or(default_value)`
abbrev pub value_or : Option Value → Option Value → Option Value
value_or none default_value = default_value
value_or (some value) default_value = some value

unfoldable pub check_params :
    Dict Value → Dict AssetRef → String → List ParamSpec → List ValidationIssue
unfolding check_param_value
check_params params assets path [] = []
check_params params assets path (param ∷ rest) =
    elim (value_or (lookup param.name params) param.default_value) [
      | none ↦ error_if param.required param_missing (param_path path param.name)
      | some value ↦ check_param_value param value assets path
    ]
    ++ check_params params assets path rest

unfoldable pub validate_params :
    WorkflowNode → NodeSpec → Dict AssetRef → String → List ValidationIssue
unfolding unknown_params check_params
validate_params node spec assets path =
    unknown_params spec path node.params ++ check_params node.params assets path spec.params

-- `AssetRef::validate`
unfoldable pub is_valid_asset : AssetRef → Bool
unfolding is_blank all_hex
is_valid_asset file =
    not (is_blank file.id)
    && (nat_eq (len file.sha256) 64 && all_hex file.sha256)
    && not (is_blank file.mime)
    && not (nat_eq file.size 0)

unfoldable pub check_assets : Dict AssetRef → List ValidationIssue
unfolding is_valid_asset
check_assets [] = []
check_assets ((key, file) ∷ rest) =
    let path = text_of ("assets." ∷ key ∷ []) in
    error_if (not (file.id == key)) asset_invalid (text_of (path ∷ ".id" ∷ []))
    ++ error_if (not (is_valid_asset file)) asset_invalid path
    ++ check_assets rest

unfoldable pub validate_assets : Workflow → List ValidationIssue
unfolding check_assets
validate_assets workflow = check_assets workflow.assets
