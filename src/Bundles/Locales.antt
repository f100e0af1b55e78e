-- ===== src/Bundles/Locales.antt =====
-- src/bundles/locales.rs
use ansible_playbooks.Common.{String, ◌<>◌, some, [], ◌∷◌}
use ansible_playbooks.Resource.Ids.{ResourceId}
use ansible_playbooks.Backends.Registry.{Resource}
use ansible_playbooks.Backends.Defaults.{
  default_apt_package, default_command, default_file, default_marker,
}
use ansible_playbooks.Bundles.{Setting, Build, ◌>>=◌, add, memoized}
use ansible_playbooks.Bundles.Apt.{apt}

unfoldable pub locale_gen : String
locale_gen =
    "# This file lists locales that you wish to have built. You can find a list\n"
    <> "# of valid supported locales at /usr/share/i18n/SUPPORTED, and you can add\n"
    <> "# user defined locales to /usr/local/share/i18n/SUPPORTED. If you change\n"
    <> "# this file, you need to rerun locale-gen.\n" <> "\n" <> "\n" <> "# aa_DJ ISO-8859-1\n"
    <> "# aa_DJ.UTF-8 UTF-8\n" <> "# aa_ER UTF-8\n" <> "# aa_ER@saaho UTF-8\n" <> "# aa_ET UTF-8\n"
    <> "# af_ZA ISO-8859-1\n" <> "# af_ZA.UTF-8 UTF-8\n" <> "# ak_GH UTF-8\n" <> "# am_ET UTF-8\n"
    <> "# an_ES ISO-8859-15\n" <> "# an_ES.UTF-8 UTF-8\n" <> "# anp_IN UTF-8\n"
    <> "# ar_AE ISO-8859-6\n" <> "# ar_AE.UTF-8 UTF-8\n" <> "# ar_BH ISO-8859-6\n"
    <> "# ar_BH.UTF-8 UTF-8\n" <> "# ar_DZ ISO-8859-6\n" <> "# ar_DZ.UTF-8 UTF-8\n"
    <> "# ar_EG ISO-8859-6\n" <> "# ar_EG.UTF-8 UTF-8\n" <> "# ar_IN UTF-8\n"
    <> "# ar_IQ ISO-8859-6\n" <> "# ar_IQ.UTF-8 UTF-8\n" <> "# ar_JO ISO-8859-6\n"
    <> "# ar_JO.UTF-8 UTF-8\n" <> "# ar_KW ISO-8859-6\n" <> "# ar_KW.UTF-8 UTF-8\n"
    <> "# ar_LB ISO-8859-6\n" <> "# ar_LB.UTF-8 UTF-8\n" <> "# ar_LY ISO-8859-6\n"
    <> "# ar_LY.UTF-8 UTF-8\n" <> "# ar_MA ISO-8859-6\n" <> "# ar_MA.UTF-8 UTF-8\n"
    <> "# ar_OM ISO-8859-6\n" <> "# ar_OM.UTF-8 UTF-8\n" <> "# ar_QA ISO-8859-6\n"
    <> "# ar_QA.UTF-8 UTF-8\n" <> "# ar_SA ISO-8859-6\n" <> "# ar_SA.UTF-8 UTF-8\n"
    <> "# ar_SD ISO-8859-6\n" <> "# ar_SD.UTF-8 UTF-8\n" <> "# ar_SS UTF-8\n"
    <> "# ar_SY ISO-8859-6\n" <> "# ar_SY.UTF-8 UTF-8\n" <> "# ar_TN ISO-8859-6\n"
    <> "# ar_TN.UTF-8 UTF-8\n" <> "# ar_YE ISO-8859-6\n" <> "# ar_YE.UTF-8 UTF-8\n"
    <> "# as_IN UTF-8\n" <> "# ast_ES ISO-8859-15\n" <> "# ast_ES.UTF-8 UTF-8\n"
    <> "# ayc_PE UTF-8\n" <> "# az_AZ UTF-8\n" <> "# be_BY CP1251\n" <> "# be_BY.UTF-8 UTF-8\n"
    <> "# be_BY@latin UTF-8\n" <> "# bem_ZM UTF-8\n" <> "# ber_DZ UTF-8\n" <> "# ber_MA UTF-8\n"
    <> "# bg_BG CP1251\n" <> "# bg_BG.UTF-8 UTF-8\n" <> "# bhb_IN.UTF-8 UTF-8\n"
    <> "# bho_IN UTF-8\n" <> "# bn_BD UTF-8\n" <> "# bn_IN UTF-8\n" <> "# bo_CN UTF-8\n"
    <> "# bo_IN UTF-8\n" <> "# br_FR ISO-8859-1\n" <> "# br_FR.UTF-8 UTF-8\n"
    <> "# br_FR@euro ISO-8859-15\n" <> "# brx_IN UTF-8\n" <> "# bs_BA ISO-8859-2\n"
    <> "# bs_BA.UTF-8 UTF-8\n" <> "# byn_ER UTF-8\n" <> "# ca_AD ISO-8859-15\n"
    <> "# ca_AD.UTF-8 UTF-8\n" <> "# ca_ES ISO-8859-1\n" <> "# ca_ES.UTF-8 UTF-8\n"
    <> "# ca_ES.UTF-8@valencia UTF-8\n" <> "# ca_ES@euro ISO-8859-15\n"
    <> "# ca_ES@valencia ISO-8859-15\n" <> "# ca_FR ISO-8859-15\n" <> "# ca_FR.UTF-8 UTF-8\n"
    <> "# ca_IT ISO-8859-15\n" <> "# ca_IT.UTF-8 UTF-8\n" <> "# ce_RU UTF-8\n" <> "# ckb_IQ UTF-8\n"
    <> "# cmn_TW UTF-8\n" <> "# crh_UA UTF-8\n" <> "# cs_CZ ISO-8859-2\n" <> "# cs_CZ.UTF-8 UTF-8\n"
    <> "# csb_PL UTF-8\n" <> "# cv_RU UTF-8\n" <> "# cy_GB ISO-8859-14\n" <> "# cy_GB.UTF-8 UTF-8\n"
    <> "# da_DK ISO-8859-1\n" <> "# da_DK.UTF-8 UTF-8\n" <> "# de_AT ISO-8859-1\n"
    <> "# de_AT.UTF-8 UTF-8\n" <> "# de_AT@euro ISO-8859-15\n" <> "# de_BE ISO-8859-1\n"
    <> "# de_BE.UTF-8 UTF-8\n" <> "# de_BE@euro ISO-8859-15\n" <> "# de_CH ISO-8859-1\n"
    <> "# de_CH.UTF-8 UTF-8\n" <> "# de_DE ISO-8859-1\n" <> "# de_DE.UTF-8 UTF-8\n"
    <> "# de_DE@euro ISO-8859-15\n" <> "# de_LI.UTF-8 UTF-8\n" <> "# de_LU ISO-8859-1\n"
    <> "# de_LU.UTF-8 UTF-8\n" <> "# de_LU@euro ISO-8859-15\n" <> "# doi_IN UTF-8\n"
    <> "# dv_MV UTF-8\n" <> "# dz_BT UTF-8\n" <> "# el_CY ISO-8859-7\n" <> "# el_CY.UTF-8 UTF-8\n"
    <> "# el_GR ISO-8859-7\n" <> "# el_GR.UTF-8 UTF-8\n" <> "# en_AG UTF-8\n"
    <> "# en_AU ISO-8859-1\n" <> "# en_AU.UTF-8 UTF-8\n" <> "# en_BW ISO-8859-1\n"
    <> "# en_BW.UTF-8 UTF-8\n" <> "# en_CA ISO-8859-1\n" <> "# en_CA.UTF-8 UTF-8\n"
    <> "# en_DK ISO-8859-1\n" <> "# en_DK.ISO-8859-15 ISO-8859-15\n" <> "# en_DK.UTF-8 UTF-8\n"
    <> "# en_GB ISO-8859-1\n" <> "# en_GB.ISO-8859-15 ISO-8859-15\n" <> "en_GB.UTF-8 UTF-8\n"
    <> "# en_HK ISO-8859-1\n" <> "# en_HK.UTF-8 UTF-8\n" <> "# en_IE ISO-8859-1\n"
    <> "# en_IE.UTF-8 UTF-8\n" <> "# en_IE@euro ISO-8859-15\n" <> "# en_IN UTF-8\n"
    <> "# en_NG UTF-8\n" <> "# en_NZ ISO-8859-1\n" <> "# en_NZ.UTF-8 UTF-8\n"
    <> "# en_PH ISO-8859-1\n" <> "# en_PH.UTF-8 UTF-8\n" <> "# en_SG ISO-8859-1\n"
    <> "# en_SG.UTF-8 UTF-8\n" <> "en_US ISO-8859-1\n" <> "# en_US.ISO-8859-15 ISO-8859-15\n"
    <> "en_US.UTF-8 UTF-8\n" <> "# en_ZA ISO-8859-1\n" <> "# en_ZA.UTF-8 UTF-8\n"
    <> "# en_ZM UTF-8\n" <> "# en_ZW ISO-8859-1\n" <> "# en_ZW.UTF-8 UTF-8\n" <> "# eo ISO-8859-3\n"
    <> "# eo.UTF-8 UTF-8\n" <> "# eo_US.UTF-8 UTF-8\n" <> "# es_AR ISO-8859-1\n"
    <> "# es_AR.UTF-8 UTF-8\n" <> "# es_BO ISO-8859-1\n" <> "# es_BO.UTF-8 UTF-8\n"
    <> "# es_CL ISO-8859-1\n" <> "# es_CL.UTF-8 UTF-8\n" <> "# es_CO ISO-8859-1\n"
    <> "# es_CO.UTF-8 UTF-8\n" <> "# es_CR ISO-8859-1\n" <> "# es_CR.UTF-8 UTF-8\n"
    <> "# es_CU UTF-8\n" <> "# es_DO ISO-8859-1\n" <> "# es_DO.UTF-8 UTF-8\n"
    <> "# es_EC ISO-8859-1\n" <> "# es_EC.UTF-8 UTF-8\n" <> "# es_ES ISO-8859-1\n"
    <> "# es_ES.UTF-8 UTF-8\n" <> "# es_ES@euro ISO-8859-15\n" <> "# es_GT ISO-8859-1\n"
    <> "# es_GT.UTF-8 UTF-8\n" <> "# es_HN ISO-8859-1\n" <> "# es_HN.UTF-8 UTF-8\n"
    <> "# es_MX ISO-8859-1\n" <> "# es_MX.UTF-8 UTF-8\n" <> "# es_NI ISO-8859-1\n"
    <> "# es_NI.UTF-8 UTF-8\n" <> "# es_PA ISO-8859-1\n" <> "# es_PA.UTF-8 UTF-8\n"
    <> "# es_PE ISO-8859-1\n" <> "# es_PE.UTF-8 UTF-8\n" <> "# es_PR ISO-8859-1\n"
    <> "# es_PR.UTF-8 UTF-8\n" <> "# es_PY ISO-8859-1\n" <> "# es_PY.UTF-8 UTF-8\n"
    <> "# es_SV ISO-8859-1\n" <> "# es_SV.UTF-8 UTF-8\n" <> "# es_US ISO-8859-1\n"
    <> "# es_US.UTF-8 UTF-8\n" <> "# es_UY ISO-8859-1\n" <> "# es_UY.UTF-8 UTF-8\n"
    <> "# es_VE ISO-8859-1\n" <> "# es_VE.UTF-8 UTF-8\n" <> "# et_EE ISO-8859-1\n"
    <> "# et_EE.ISO-8859-15 ISO-8859-15\n" <> "# et_EE.UTF-8 UTF-8\n" <> "# eu_ES ISO-8859-1\n"
    <> "# eu_ES.UTF-8 UTF-8\n" <> "# eu_ES@euro ISO-8859-15\n" <> "# eu_FR ISO-8859-1\n"
    <> "# eu_FR.UTF-8 UTF-8\n" <> "# eu_FR@euro ISO-8859-15\n" <> "# fa_IR UTF-8\n"
    <> "# ff_SN UTF-8\n" <> "# fi_FI ISO-8859-1\n" <> "# fi_FI.UTF-8 UTF-8\n"
    <> "# fi_FI@euro ISO-8859-15\n" <> "# fil_PH UTF-8\n" <> "# fo_FO ISO-8859-1\n"
    <> "# fo_FO.UTF-8 UTF-8\n" <> "# fr_BE ISO-8859-1\n" <> "# fr_BE.UTF-8 UTF-8\n"
    <> "# fr_BE@euro ISO-8859-15\n" <> "# fr_CA ISO-8859-1\n" <> "# fr_CA.UTF-8 UTF-8\n"
    <> "# fr_CH ISO-8859-1\n" <> "# fr_CH.UTF-8 UTF-8\n" <> "# fr_FR ISO-8859-1\n"
    <> "# fr_FR.UTF-8 UTF-8\n" <> "# fr_FR@euro ISO-8859-15\n" <> "# fr_LU ISO-8859-1\n"
    <> "# fr_LU.UTF-8 UTF-8\n" <> "# fr_LU@euro ISO-8859-15\n" <> "# fur_IT UTF-8\n"
    <> "# fy_DE UTF-8\n" <> "# fy_NL UTF-8\n" <> "# ga_IE ISO-8859-1\n" <> "# ga_IE.UTF-8 UTF-8\n"
    <> "# ga_IE@euro ISO-8859-15\n" <> "# gd_GB ISO-8859-15\n" <> "# gd_GB.UTF-8 UTF-8\n"
    <> "# gez_ER UTF-8\n" <> "# gez_ER@abegede UTF-8\n" <> "# gez_ET UTF-8\n"
    <> "# gez_ET@abegede UTF-8\n" <> "# gl_ES ISO-8859-1\n" <> "# gl_ES.UTF-8 UTF-8\n"
    <> "# gl_ES@euro ISO-8859-15\n" <> "# gu_IN UTF-8\n" <> "# gv_GB ISO-8859-1\n"
    <> "# gv_GB.UTF-8 UTF-8\n" <> "# ha_NG UTF-8\n" <> "# hak_TW UTF-8\n" <> "# he_IL ISO-8859-8\n"
    <> "# he_IL.UTF-8 UTF-8\n" <> "# hi_IN UTF-8\n" <> "# hne_IN UTF-8\n" <> "# hr_HR ISO-8859-2\n"
    <> "# hr_HR.UTF-8 UTF-8\n" <> "# hsb_DE ISO-8859-2\n" <> "# hsb_DE.UTF-8 UTF-8\n"
    <> "# ht_HT UTF-8\n" <> "# hu_HU ISO-8859-2\n" <> "# hu_HU.UTF-8 UTF-8\n" <> "# hy_AM UTF-8\n"
    <> "# hy_AM.ARMSCII-8 ARMSCII-8\n" <> "# ia_FR UTF-8\n" <> "# id_ID ISO-8859-1\n"
    <> "# id_ID.UTF-8 UTF-8\n" <> "# ig_NG UTF-8\n" <> "# ik_CA UTF-8\n" <> "# is_IS ISO-8859-1\n"
    <> "# is_IS.UTF-8 UTF-8\n" <> "# it_CH ISO-8859-1\n" <> "# it_CH.UTF-8 UTF-8\n"
    <> "# it_IT ISO-8859-1\n" <> "# it_IT.UTF-8 UTF-8\n" <> "# it_IT@euro ISO-8859-15\n"
    <> "# iu_CA UTF-8\n" <> "# iw_IL ISO-8859-8\n" <> "# iw_IL.UTF-8 UTF-8\n"
    <> "# ja_JP.EUC-JP EUC-JP\n" <> "# ja_JP.UTF-8 UTF-8\n" <> "# ka_GE GEORGIAN-PS\n"
    <> "# ka_GE.UTF-8 UTF-8\n" <> "# kk_KZ PT154\n" <> "# kk_KZ RK1048\n" <> "# kk_KZ.UTF-8 UTF-8\n"
    <> "# kl_GL ISO-8859-1\n" <> "# kl_GL.UTF-8 UTF-8\n" <> "# km_KH UTF-8\n" <> "# kn_IN UTF-8\n"
    <> "# ko_KR.EUC-KR EUC-KR\n" <> "# ko_KR.UTF-8 UTF-8\n" <> "# kok_IN UTF-8\n"
    <> "# ks_IN UTF-8\n" <> "# ks_IN@devanagari UTF-8\n" <> "# ku_TR ISO-8859-9\n"
    <> "# ku_TR.UTF-8 UTF-8\n" <> "# kw_GB ISO-8859-1\n" <> "# kw_GB.UTF-8 UTF-8\n"
    <> "# ky_KG UTF-8\n" <> "# lb_LU UTF-8\n" <> "# lg_UG ISO-8859-10\n" <> "# lg_UG.UTF-8 UTF-8\n"
    <> "# li_BE UTF-8\n" <> "# li_NL UTF-8\n" <> "# lij_IT UTF-8\n" <> "# ln_CD UTF-8\n"
    <> "# lo_LA UTF-8\n" <> "# lt_LT ISO-8859-13\n" <> "# lt_LT.UTF-8 UTF-8\n"
    <> "# lv_LV ISO-8859-13\n" <> "# lv_LV.UTF-8 UTF-8\n" <> "# lzh_TW UTF-8\n"
    <> "# mag_IN UTF-8\n" <> "# mai_IN UTF-8\n" <> "# mg_MG ISO-8859-15\n"
    <> "# mg_MG.UTF-8 UTF-8\n" <> "# mhr_RU UTF-8\n" <> "# mi_NZ ISO-8859-13\n"
    <> "# mi_NZ.UTF-8 UTF-8\n" <> "# mk_MK ISO-8859-5\n" <> "# mk_MK.UTF-8 UTF-8\n"
    <> "# ml_IN UTF-8\n" <> "# mn_MN UTF-8\n" <> "# mni_IN UTF-8\n" <> "# mr_IN UTF-8\n"
    <> "# ms_MY ISO-8859-1\n" <> "# ms_MY.UTF-8 UTF-8\n" <> "# mt_MT ISO-8859-3\n"
    <> "# mt_MT.UTF-8 UTF-8\n" <> "# my_MM UTF-8\n" <> "# nan_TW UTF-8\n"
    <> "# nan_TW@latin UTF-8\n" <> "# nb_NO ISO-8859-1\n" <> "# nb_NO.UTF-8 UTF-8\n"
    <> "# nds_DE UTF-8\n" <> "# nds_NL UTF-8\n" <> "# ne_NP UTF-8\n" <> "# nhn_MX UTF-8\n"
    <> "# niu_NU UTF-8\n" <> "# niu_NZ UTF-8\n" <> "# nl_AW UTF-8\n" <> "# nl_BE ISO-8859-1\n"
    <> "# nl_BE.UTF-8 UTF-8\n" <> "# nl_BE@euro ISO-8859-15\n" <> "# nl_NL ISO-8859-1\n"
    <> "# nl_NL.UTF-8 UTF-8\n" <> "# nl_NL@euro ISO-8859-15\n" <> "# nn_NO ISO-8859-1\n"
    <> "# nn_NO.UTF-8 UTF-8\n" <> "# nr_ZA UTF-8\n" <> "# nso_ZA UTF-8\n" <> "# oc_FR ISO-8859-1\n"
    <> "# oc_FR.UTF-8 UTF-8\n" <> "# om_ET UTF-8\n" <> "# om_KE ISO-8859-1\n"
    <> "# om_KE.UTF-8 UTF-8\n" <> "# or_IN UTF-8\n" <> "# os_RU UTF-8\n" <> "# pa_IN UTF-8\n"
    <> "# pa_PK UTF-8\n" <> "# pap_AN UTF-8\n" <> "# pap_AW UTF-8\n" <> "# pap_CW UTF-8\n"
    <> "# pl_PL ISO-8859-2\n" <> "# pl_PL.UTF-8 UTF-8\n" <> "# ps_AF UTF-8\n"
    <> "# pt_BR ISO-8859-1\n" <> "# pt_BR.UTF-8 UTF-8\n" <> "# pt_PT ISO-8859-1\n"
    <> "# pt_PT.UTF-8 UTF-8\n" <> "# pt_PT@euro ISO-8859-15\n" <> "# quz_PE UTF-8\n"
    <> "# raj_IN UTF-8\n" <> "# ro_RO ISO-8859-2\n" <> "# ro_RO.UTF-8 UTF-8\n"
    <> "ru_RU ISO-8859-5\n" <> "# ru_RU.CP1251 CP1251\n" <> "# ru_RU.KOI8-R KOI8-R\n"
    <> "ru_RU.UTF-8 UTF-8\n" <> "# ru_UA KOI8-U\n" <> "# ru_UA.UTF-8 UTF-8\n" <> "# rw_RW UTF-8\n"
    <> "# sa_IN UTF-8\n" <> "# sat_IN UTF-8\n" <> "# sc_IT UTF-8\n" <> "# sd_IN UTF-8\n"
    <> "# sd_IN@devanagari UTF-8\n" <> "# sd_PK UTF-8\n" <> "# se_NO UTF-8\n" <> "# shs_CA UTF-8\n"
    <> "# si_LK UTF-8\n" <> "# sid_ET UTF-8\n" <> "# sk_SK ISO-8859-2\n" <> "# sk_SK.UTF-8 UTF-8\n"
    <> "# sl_SI ISO-8859-2\n" <> "# sl_SI.UTF-8 UTF-8\n" <> "# so_DJ ISO-8859-1\n"
    <> "# so_DJ.UTF-8 UTF-8\n" <> "# so_ET UTF-8\n" <> "# so_KE ISO-8859-1\n"
    <> "# so_KE.UTF-8 UTF-8\n" <> "# so_SO ISO-8859-1\n" <> "# so_SO.UTF-8 UTF-8\n"
    <> "# sq_AL ISO-8859-1\n" <> "# sq_AL.UTF-8 UTF-8\n" <> "# sq_MK UTF-8\n" <> "# sr_ME UTF-8\n"
    <> "# sr_RS UTF-8\n" <> "# sr_RS@latin UTF-8\n" <> "# ss_ZA UTF-8\n" <> "# st_ZA ISO-8859-1\n"
    <> "# st_ZA.UTF-8 UTF-8\n" <> "# sv_FI ISO-8859-1\n" <> "# sv_FI.UTF-8 UTF-8\n"
    <> "# sv_FI@euro ISO-8859-15\n" <> "# sv_SE ISO-8859-1\n" <> "# sv_SE.ISO-8859-15 ISO-8859-15\n"
    <> "# sv_SE.UTF-8 UTF-8\n" <> "# sw_KE UTF-8\n" <> "# sw_TZ UTF-8\n" <> "# szl_PL UTF-8\n"
    <> "# ta_IN UTF-8\n" <> "# ta_LK UTF-8\n" <> "# tcy_IN.UTF-8 UTF-8\n" <> "# te_IN UTF-8\n"
    <> "# tg_TJ KOI8-T\n" <> "# tg_TJ.UTF-8 UTF-8\n" <> "# th_TH TIS-620\n"
    <> "# th_TH.UTF-8 UTF-8\n" <> "# the_NP UTF-8\n" <> "# ti_ER UTF-8\n" <> "# ti_ET UTF-8\n"
    <> "# tig_ER UTF-8\n" <> "# tk_TM UTF-8\n" <> "# tl_PH ISO-8859-1\n" <> "# tl_PH.UTF-8 UTF-8\n"
    <> "# tn_ZA UTF-8\n" <> "# tr_CY ISO-8859-9\n" <> "# tr_CY.UTF-8 UTF-8\n"
    <> "# tr_TR ISO-8859-9\n" <> "# tr_TR.UTF-8 UTF-8\n" <> "# ts_ZA UTF-8\n" <> "# tt_RU UTF-8\n"
    <> "# tt_RU@iqtelif UTF-8\n" <> "# ug_CN UTF-8\n" <> "# ug_CN@latin UTF-8\n"
    <> "# uk_UA KOI8-U\n" <> "# uk_UA.UTF-8 UTF-8\n" <> "# unm_US UTF-8\n" <> "# ur_IN UTF-8\n"
    <> "# ur_PK UTF-8\n" <> "# uz_UZ ISO-8859-1\n" <> "# uz_UZ.UTF-8 UTF-8\n"
    <> "# uz_UZ@cyrillic UTF-8\n" <> "# ve_ZA UTF-8\n" <> "# vi_VN UTF-8\n"
    <> "# wa_BE ISO-8859-1\n" <> "# wa_BE.UTF-8 UTF-8\n" <> "# wa_BE@euro ISO-8859-15\n"
    <> "# wae_CH UTF-8\n" <> "# wal_ET UTF-8\n" <> "# wo_SN UTF-8\n" <> "# xh_ZA ISO-8859-1\n"
    <> "# xh_ZA.UTF-8 UTF-8\n" <> "# yi_US CP1255\n" <> "# yi_US.UTF-8 UTF-8\n" <> "# yo_NG UTF-8\n"
    <> "# yue_HK UTF-8\n" <> "# zh_CN GB2312\n" <> "# zh_CN.GB18030 GB18030\n"
    <> "# zh_CN.GBK GBK\n" <> "# zh_CN.UTF-8 UTF-8\n" <> "# zh_HK BIG5-HKSCS\n"
    <> "# zh_HK.UTF-8 UTF-8\n" <> "# zh_SG GB2312\n" <> "# zh_SG.GBK GBK\n"
    <> "# zh_SG.UTF-8 UTF-8\n" <> "# zh_TW BIG5\n" <> "# zh_TW.EUC-TW EUC-TW\n"
    <> "# zh_TW.UTF-8 UTF-8\n" <> "# zu_ZA ISO-8859-1\n" <> "# zu_ZA.UTF-8 UTF-8\n"

unfoldable pub build : Setting → Build ResourceId
build s = do
  apt_ready ← apt s
  pkg ← add (
      Resource.apt_package (record default_apt_package { name = "locales"; deps = apt_ready ∷ [] }))
  locale_gen_file ← add (
      Resource.file (record default_file {
        path = "/etc/locale.gen";
        content = locale_gen;
        mode = some 0o644;
        deps = pkg ∷ [];
      }))
  locale_gen_cmd ← add (
      Resource.command (record default_command {
        name = "locale-gen";
        argv = "locale-gen" ∷ [];
        trigger_on = some (locale_gen_file ∷ []);
        deps = pkg ∷ locale_gen_file ∷ [];
      }))
  add (
      Resource.marker (record default_marker {
        name = "locales:ready";
        deps = pkg ∷ locale_gen_file ∷ locale_gen_cmd ∷ [];
      }))

-- `Context::locales`
unfoldable pub locales : Setting → Build ResourceId
locales s = memoized "locales" (build s)
