-- ===== src/Webhook/Patch.antt =====
-- The JSON patches with which the mutating webhooks answer, and what the API server makes of them.
use network_controller_harve.Common.{Bytes, GoMap, List, [], ◌∷◌}
use network_controller_harve.Objects.{ObjectMeta, Nad, VlanConfig}

-- `admission.PatchOp` with the operation `replace`, by its path.
pub data PatchOp : Type 0 where
  replace_labels : GoMap → PatchOp
  replace_annotations : GoMap → PatchOp
  replace_config : Bytes → PatchOp

abbrev pub Patch : Type 0
Patch = List PatchOp

abbrev pub patch_meta : PatchOp → ObjectMeta → ObjectMeta
patch_meta (replace_labels m) meta = record meta { labels = m }
patch_meta (replace_annotations m) meta = record meta { annotations = m }
patch_meta (replace_config text) meta = meta

-- The object that the validating webhooks see.
abbrev pub patch_nad : PatchOp → Nad → Nad
patch_nad (replace_labels m) nad = record nad { meta = patch_meta (replace_labels m) nad.meta }
patch_nad (replace_annotations m) nad = record nad {
  meta = patch_meta (replace_annotations m) nad.meta;
}
patch_nad (replace_config text) nad = record nad { config = text }

abbrev pub patched_nad : Patch → Nad → Nad
patched_nad [] nad = nad
patched_nad (op ∷ ops) nad = patched_nad ops (patch_nad op nad)

abbrev pub patched_vc : Patch → VlanConfig → VlanConfig
patched_vc [] vc = vc
patched_vc (op ∷ ops) vc = patched_vc ops (record vc { meta = patch_meta op vc.meta })
