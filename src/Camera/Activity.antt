-- ===== src/Camera/Activity.antt =====
-- libcamera/ExynosCameraActivityBase.cpp: the dispatch of a frame's callbacks to an activity. A
-- buffer is its handle with the metadata plane `virt.extP[1]`; `pFunc` is `NULL` at first, and a
-- call through `NULL` is a crash, here `none`.
use android_hardware_samsung.Common.{ℕ, Option, none, some}
use android_hardware_samsung.Camera.Shot.{Shot}

-- `enum CALLBACK_TYPE`
pub data CallbackType : Type 0 where
  sensor_before sensor_after callback_3a_before callback_3a_after : CallbackType
  isp_before isp_after scc_before scc_after scp_before scp_after end : CallbackType

pub record Buffer : Type 0 where
  pub handle : ℕ
  pub shot : Shot

-- The pure virtual callbacks, over the members `S` of the derived class. All of them answer 1.
pub record Activity {ℓ} (S : Type ℓ) : Type ℓ where
  pub func_sensor_before : S → Buffer → S × Buffer
  pub func_sensor_after : S → Buffer → S × Buffer
  pub func_3a_before : S → Buffer → S × Buffer
  pub func_3a_after : S → Buffer → S × Buffer
  pub func_isp_before : S → Buffer → S × Buffer
  pub func_isp_after : S → Buffer → S × Buffer
  pub func_scc_before : S → Buffer → S × Buffer
  pub func_scc_after : S → Buffer → S × Buffer
  pub func_scp_before : S → Buffer → S × Buffer
  pub func_scp_after : S → Buffer → S × Buffer

-- The body of a callback that only answers 1.
abbrev pub keep {ℓ} : {S : Type ℓ} → S → Buffer → S × Buffer
keep s buf = (s, buf)

module _ {ℓ} {S : Type ℓ} where
  -- The member function that `pFunc` points to.
  abbrev pub virtual : Activity S → CallbackType → S → Buffer → Option (S × Buffer)
  virtual a CallbackType.sensor_before s b = some (a.func_sensor_before s b)
  virtual a CallbackType.sensor_after s b = some (a.func_sensor_after s b)
  virtual a CallbackType.callback_3a_before s b = some (a.func_3a_before s b)
  virtual a CallbackType.callback_3a_after s b = some (a.func_3a_after s b)
  virtual a CallbackType.isp_before s b = some (a.func_isp_before s b)
  virtual a CallbackType.isp_after s b = some (a.func_isp_after s b)
  virtual a CallbackType.scc_before s b = some (a.func_scc_before s b)
  virtual a CallbackType.scc_after s b = some (a.func_scc_after s b)
  virtual a CallbackType.scp_before s b = some (a.func_scp_before s b)
  virtual a CallbackType.scp_after s b = some (a.func_scp_after s b)
  virtual a CallbackType.end s b = none

-- The `switch` that sets `pFunc`; its default keeps the pointer of the call before.
abbrev pub select : CallbackType → Option CallbackType → Option CallbackType
select CallbackType.end p_func = p_func
select type p_func = some type

-- `execFunction` on the pointer `pFunc` and the members: the new pointer, members and buffer.
unfoldable pub exec_function {ℓ} :
    {S : Type ℓ}
    → Activity S
    → CallbackType
    → Option CallbackType
    → S
    → Buffer
    → Option CallbackType × Option (S × Buffer)
exec_function a type p_func s b =
    let p = select type p_func in (p, elim p [ none ↦ none | some t ↦ virtual a t s b ])
